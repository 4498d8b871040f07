-- ===== src/Pmm/Lists.antt =====
-- The lists of free pages.
use robu_microkernel.Base.{
  ℕ, ◌+◌, ◌*◌, ◌%◌, ◌≡◌, ◌≢◌, ◌≤◌, ◌<◌, refl, sym, ap, subst, ◌∙◌, List, [], ◌∷◌, arith, All, zero,
  suc, ne→==,
}
use robu_microkernel.Base.Chain.{upd, NoDup, NotIn}
use robu_microkernel.Vm.{page_bytes}
use robu_microkernel.Pmm.{Pmm, num_colors, color_of, clear_from}

-- The pages from the address on are those of the list.
abbrev pub Linked : (ℕ → ℕ) → ℕ → List ℕ → Type 0
Linked memory h [] = h ≡ 0
Linked memory h (x ∷ xs) = (h ≡ x) × (x ≢ 0) × Linked memory (memory x) xs

-- A page of the colour.
abbrev pub IsPage : ℕ → ℕ → Type 0
IsPage c f = (color_of f ≡ c) × (f % page_bytes ≡ 0)

-- The free pages of the colour `c` are `ls c`.
pub record FreeLists (p : Pmm) (ls : ℕ → List ℕ) : Type 0 where
  pub linked : (c : ℕ) → c < num_colors → Linked p.memory (p.free_head c) (ls c)
  pub pages : (c : ℕ) → All (IsPage c) (ls c)
  pub no_dup : (c : ℕ) → NoDup (ls c)

-- The lists do not change with words elsewhere.
pub Linked-frame :
    (m m' : ℕ → ℕ) (h : ℕ) (xs : List ℕ) → All (λ y. m' y ≡ m y) xs → Linked m h xs → Linked m' h xs
Linked-frame m m' h [] same l = l
Linked-frame m m' h (x ∷ xs) same l =
    (l.0, l.1, subst (λ a. Linked m' a xs) (sym same.0) (Linked-frame m m' (m x) xs same.1 l.2))

pub clear-others :
    (n i frame : ℕ) (m : ℕ → ℕ) (a : ℕ)
    → frame % page_bytes ≡ 0
    → a % page_bytes ≡ 0
    → a ≢ frame
    → i + n ≤ 512
    → clear_from n i frame m a ≡ m a
unfolding clear_from
clear-others zero i frame m a h k n b = refl
clear-others (suc n) i frame m a h k ne b =
    let apart : a ≢ frame + 8 * i = (λ e. ne (omega arith)) in
    clear-others n (i + 1) frame (upd m (frame + 8 * i) 0) a h k ne (omega arith)
    ∙ rw (ne→== a (frame + 8 * i) apart) refl

-- The pages of a list whose members are not `f`.
pub others_same :
    (c : ℕ) (f : ℕ) (m m' : ℕ → ℕ) (xs : List ℕ)
    → ((a : ℕ) → a % page_bytes ≡ 0 → a ≢ f → m' a ≡ m a)
    → All (IsPage c) xs
    → NotIn f xs
    → All (λ y. m' y ≡ m y) xs
others_same c f m m' [] h k n = tt
others_same c f m m' (x ∷ xs) h k n = (h x k.0.1 n.0, others_same c f m m' xs h k.1 n.1)

-- A page of another colour is not in the list.
pub other_color : (c f : ℕ) (xs : List ℕ) → color_of f ≢ c → All (IsPage c) xs → NotIn f xs
other_color c f [] n k = tt
other_color c f (x ∷ xs) n k = ((λ e. n (sym (ap color_of e) ∙ k.0.0)), other_color c f xs n k.1)
