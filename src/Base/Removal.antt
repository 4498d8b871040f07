-- ===== src/Base/Removal.antt =====
-- Taking a node out of the middle of an intrusive list.
use robu_microkernel.Base.Tests.{◌==◌, if◌then◌else◌, ==_refl, ne→==}
use robu_microkernel.Base.Lists.{All}
use robu_microkernel.Base.Chain.{Chain, Chain-frame, last, last-snoc, last-ne, NoDup, NotIn}
use Prim.Native.Nat.{ℕ}
use mathlib.Core.Path.{◌≡◌, refl, sym, ap, subst, ◌∙◌}
use mathlib.Core.Logic.{◌≢◌}
use mathlib.Core.Bool.{Bool, false}
use mathlib.Core.Option.{Option, none, some}
use mathlib.Core.List.{List, [], ◌∷◌, ◌++◌}

pub append_nil {ℓ} : {A : Type ℓ} (xs : List A) → xs ++ [] ≡ xs
append_nil [] = refl
append_nil (x ∷ xs) = ap (λ ys. x ∷ ys) (append_nil xs)

pub append_assoc {ℓ} : {A : Type ℓ} (xs ys zs : List A) → (xs ++ ys) ++ zs ≡ xs ++ (ys ++ zs)
append_assoc [] ys zs = refl
append_assoc (x ∷ xs) ys zs = ap (λ ws. x ∷ ws) (append_assoc xs ys zs)

pub All-middle {ℓ κ} :
    {A : Type ℓ} (P : A → Type κ) (xs : List A) (t : A) (ys : List A)
    → All P (xs ++ t ∷ ys)
    → P t × All P (xs ++ ys)
All-middle P [] t ys h = h
All-middle P (x ∷ xs) t ys h = let (here, rest) = All-middle P xs t ys h.1 in (here, (h.0, rest))

pub NoDup-middle :
    (xs : List ℕ) (t : ℕ) (ys : List ℕ)
    → NoDup (xs ++ t ∷ ys)
    → NoDup (xs ++ ys) × NotIn t (xs ++ ys)
NoDup-middle [] t ys d = (d.1, d.0)
NoDup-middle (x ∷ xs) t ys d =
    let (kept, apart) = NoDup-middle xs t ys d.1 in
    let (ne, others) = All-middle (λ y. y ≢ x) xs t ys d.0 in
    ((others, kept), ((λ e. ne (sym e)), apart))

last-append : (xs : List ℕ) (y : ℕ) (ys : List ℕ) → last (xs ++ y ∷ ys) ≡ last (y ∷ ys)
last-append [] y ys = refl
last-append (x ∷ []) y ys = refl
last-append (x ∷ z ∷ xs) y ys = last-append (z ∷ xs) y ys

-- `tail == t`
abbrev pub is_node : Option ℕ → ℕ → Bool
is_node none t = false
is_node (some l) t = l == t

pub tail_of_removed :
    (xs : List ℕ) (t : ℕ) (ys : List ℕ)
    → NotIn t ys
    → (if is_node (last (xs ++ t ∷ ys)) t then last xs else last (xs ++ t ∷ ys)) ≡ last (xs ++ ys)
tail_of_removed xs t [] n = rw (last-snoc xs t, ==_refl t, append_nil xs) refl
tail_of_removed xs t (y ∷ ys) n =
    rw (last-append xs t (y ∷ ys), last-append xs y ys) (not_last (last (y ∷ ys)) refl)
  where
    not_last : (o : Option ℕ) → last (y ∷ ys) ≡ o → (if is_node o t then last xs else o) ≡ o
    not_last none e = refl
    not_last (some l) e = rw (ne→== l t (λ q. last-ne t (y ∷ ys) l n e (sym q))) refl

-- The node behind the list `xs` is skipped: its predecessor points to its successor.
pub Chain-removed :
    (next next' : ℕ → Option ℕ) (xs : List ℕ) (h : Option ℕ) (p t : ℕ) (ys : List ℕ)
    → Chain next h (xs ++ t ∷ ys)
    → NoDup (xs ++ t ∷ ys)
    → last xs ≡ some p
    → next' p ≡ next t
    → ((y : ℕ) → y ≢ p → y ≢ t → next' y ≡ next y)
    → Chain next' h (xs ++ ys)
Chain-removed next next' [] h p t ys c d e link same = cc
Chain-removed next next' (x ∷ []) h p t ys c d e link same =
    let e' : x ≡ p = cc in
    let apart : NotIn x ys = d.0.1 in
    let agree : All (λ y. next' y ≡ next y) ys =
      agreeing ys apart d.1.0 (λ y n m. same y (λ q. n (q ∙ sym e')) m) in
    let at_x : next' x ≡ next t = ap next' e' ∙ link in
    (c.0, subst (λ o. Chain next' o ys) (sym at_x) (Chain-frame next next' ys (next t) agree c.1.1))
  where
    agreeing :
        (ys : List ℕ)
        → NotIn x ys
        → NotIn t ys
        → ((y : ℕ) → y ≢ x → y ≢ t → next' y ≡ next y)
        → All (λ y. next' y ≡ next y) ys
    agreeing [] a b f = tt
    agreeing (y ∷ ys) a b f = (f y a.0 b.0, agreeing ys a.1 b.1 f)
Chain-removed next next' (x ∷ z ∷ xs) h p t ys c d e link same =
    let (ne, _) = All-middle (λ y. y ≢ x) (z ∷ xs) t ys d.0 in
    let front : NotIn x (z ∷ xs) = front_of (z ∷ xs) (t ∷ ys) d.0 in
    let at_x = same x (last-ne x (z ∷ xs) p front e) (λ q. ne (sym q)) in
    (
      c.0,
      subst (λ o. Chain next' o (z ∷ xs ++ ys)) (sym at_x)
          (Chain-removed next next' (z ∷ xs) (next x) p t ys c.1 d.1 e link same),
    )
  where
    front_of : (us vs : List ℕ) → NotIn x (us ++ vs) → NotIn x us
    front_of [] vs n = tt
    front_of (u ∷ us) vs n = (n.0, front_of us vs n.1)
