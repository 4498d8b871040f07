-- ===== src/Base/Chain.antt =====
-- Intrusive linked lists: a head pointer and a `next` field in each node. A pointer is the number of
-- its node, or `none` for NULL.
use robu_microkernel.Base.Tests.{◌==◌, if◌then◌else◌}
use robu_microkernel.Base.Lists.{All}
use Prim.Native.Nat.{ℕ}
use mathlib.Core.Path.{◌≡◌, refl, sym, subst}
use mathlib.Core.Logic.{◌≢◌, ◌⊎◌, inl, inr}
use mathlib.Core.Option.{Option, none, some}
use mathlib.Core.List.{List, [], ◌∷◌, ◌++◌}

-- A store of objects, and the store after one of them is written.
abbrev pub upd {ℓ} : {A : Type ℓ} → (ℕ → A) → ℕ → A → ℕ → A
upd f i a j = if j == i then a else f j

-- The nodes from the head on are those of the list.
abbrev pub Chain : (ℕ → Option ℕ) → Option ℕ → List ℕ → Type 0
Chain next h [] = h ≡ none
Chain next h (x ∷ xs) = (h ≡ some x) × Chain next (next x) xs

abbrev pub last : List ℕ → Option ℕ
last [] = none
last (x ∷ []) = some x
last (x ∷ y ∷ xs) = last (y ∷ xs)

abbrev pub NotIn : ℕ → List ℕ → Type 0
NotIn x ys = All (λ y. y ≢ x) ys

abbrev pub NoDup : List ℕ → Type 0
NoDup [] = Unit
NoDup (x ∷ xs) = NotIn x xs × NoDup xs

abbrev pub Has : ℕ → List ℕ → Type 0
Has x [] = ⊥
Has x (y ∷ ys) = (y ≡ x) ⊎ Has x ys

-- A chain is the same over a store that agrees on its nodes.
pub Chain-frame :
    (next next' : ℕ → Option ℕ) (xs : List ℕ) (h : Option ℕ)
    → All (λ y. next' y ≡ next y) xs
    → Chain next h xs
    → Chain next' h xs
Chain-frame next next' [] h same c = c
Chain-frame next next' (x ∷ xs) h same c = (
  c.0,
  Chain-frame next next' xs (next' x) same.1 (subst (λ o. Chain next o xs) (sym same.0) c.1),
)

pub All-imp {ℓ κ μ} :
    {A : Type ℓ} (P : A → Type κ) (Q : A → Type μ) (xs : List A)
    → ((x : A) → P x → Q x)
    → All P xs
    → All Q xs
All-imp P Q [] f h = tt
All-imp P Q (x ∷ xs) f h = (f x h.0, All-imp P Q xs f h.1)

pub All-append {ℓ κ} :
    {A : Type ℓ} (P : A → Type κ) (xs ys : List A) → All P xs → All P ys → All P (xs ++ ys)
All-append P [] ys h k = k
All-append P (x ∷ xs) ys h k = (h.0, All-append P xs ys h.1 k)

pub NoDup-snoc : (xs : List ℕ) (t : ℕ) → NoDup xs → NotIn t xs → NoDup (xs ++ t ∷ [])
NoDup-snoc [] t d n = (tt, tt)
NoDup-snoc (x ∷ xs) t d n =
    (All-append (λ y. y ≢ x) xs (t ∷ []) d.0 ((λ e. n.0 (sym e)), tt), NoDup-snoc xs t d.1 n.1)

pub last-snoc : (xs : List ℕ) (t : ℕ) → last (xs ++ t ∷ []) ≡ some t
last-snoc [] t = refl
last-snoc (x ∷ []) t = refl
last-snoc (x ∷ y ∷ xs) t = last-snoc (y ∷ xs) t

pub last-ne : (x : ℕ) (ys : List ℕ) (l : ℕ) → NotIn x ys → last ys ≡ some l → x ≢ l
last-ne x [] l n e q = cc
last-ne x (y ∷ []) l n e q = n.0 (cc)
last-ne x (y ∷ z ∷ ys) l n e q = last-ne x (z ∷ ys) l n.1 e q

-- A new node linked behind the last one: the store differs at the last node and at the new one.
pub Chain-snoc :
    (next next' : ℕ → Option ℕ) (xs : List ℕ) (h : Option ℕ) (l t : ℕ)
    → Chain next h xs
    → NoDup xs
    → NotIn t xs
    → last xs ≡ some l
    → next' l ≡ some t
    → next' t ≡ none
    → ((y : ℕ) → y ≢ l → y ≢ t → next' y ≡ next y)
    → Chain next' h (xs ++ t ∷ [])
Chain-snoc next next' [] h l t c d n e pl pt same = cc
Chain-snoc next next' (x ∷ []) h l t c d n e pl pt same =
    let e' : x ≡ l = cc in (c.0, (subst (λ y. next' y ≡ some t) (sym e') pl, pt))
Chain-snoc next next' (x ∷ y ∷ xs) h l t c d n e pl pt same = (
  c.0,
  subst (λ o. Chain next' o (y ∷ xs ++ t ∷ [])) (sym (same x (last-ne x (y ∷ xs) l d.0 e) n.0))
      (Chain-snoc next next' (y ∷ xs) (next x) l t c.1 d.1 n.1 e pl pt same),
)

pub All-last {κ} : (P : ℕ → Type κ) (xs : List ℕ) (l : ℕ) → All P xs → last xs ≡ some l → P l
All-last P [] l h e = cc
All-last P (x ∷ []) l h e = let e' : x ≡ l = cc in subst P e' h.0
All-last P (x ∷ y ∷ xs) l h e = All-last P (y ∷ xs) l h.1 e

pub last-none : (xs : List ℕ) → last xs ≡ none → xs ≡ []
last-none [] e = refl
last-none (x ∷ []) e = cc
last-none (x ∷ y ∷ xs) e = let n = last-none (y ∷ xs) e in cc

pub Has-snoc_self : (xs : List ℕ) (t : ℕ) → Has t (xs ++ t ∷ [])
Has-snoc_self [] t = inl refl
Has-snoc_self (x ∷ xs) t = inr (Has-snoc_self xs t)

pub Has-snoc : (xs : List ℕ) (u t : ℕ) → Has u xs → Has u (xs ++ t ∷ [])
Has-snoc (x ∷ xs) u t (inl e) = inl e
Has-snoc (x ∷ xs) u t (inr h) = inr (Has-snoc xs u t h)
Has-snoc [] u t h = absurd h
