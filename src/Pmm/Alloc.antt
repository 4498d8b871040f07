-- ===== src/Pmm/Alloc.antt =====
-- `pmm_alloc` takes the first page of a list and clears it.
use native.Mathlib.Decide.{ℕ_discrete}
use robu_microkernel.Base.{
  ℕ, zero, suc, ◌+◌, ◌-◌, ◌*◌, ◌%◌, ◌≡◌, ◌≢◌, ◌⊎◌, ◌≤◌, ◌<◌, refl, sym, ap, ◌∙◌, none, some,
  some-inj, List, [], ◌∷◌, ◌==◌, ◌!=◌, arith, inl, inr, Bool-cases, Option-cases, ==_refl, ne→==,
}
use robu_microkernel.Base.Chain.{upd}
use robu_microkernel.Vm.{page_bytes}
use robu_microkernel.Pmm.{Pmm, num_colors, clear_from, pick_color, alloc_color, pmm_alloc}
use robu_microkernel.Pmm.Lists.{FreeLists, Linked-frame, clear-others, others_same, other_color}

clear-zero : (n i frame : ℕ) (m : ℕ → ℕ) (a : ℕ) → m a ≡ 0 → clear_from n i frame m a ≡ 0
unfolding clear_from
clear-zero zero i frame m a h = h
clear-zero (suc n) i frame m a h =
    clear-zero n (i + 1) frame (upd m (frame + 8 * i) 0) a
      (elim (Bool-cases (a == frame + 8 * i)) [ inl e ↦ rw e refl | inr e ↦ rw e h ])

clear-cleared :
    (n i frame : ℕ) (m : ℕ → ℕ) (j : ℕ)
    → i ≤ j
    → j < i + n
    → clear_from n i frame m (frame + 8 * j) ≡ 0
unfolding clear_from
clear-cleared zero i frame m j a b = absurd (omega arith)
clear-cleared (suc n) i frame m j a b = elim (ℕ_discrete j i) [
  | yes e ↦
      clear-zero n (i + 1) frame (upd m (frame + 8 * i) 0) (frame + 8 * j)
        (rw (e, ==_refl (frame + 8 * i)) refl)
  | no d ↦ clear-cleared n (i + 1) frame (upd m (frame + 8 * i) 0) j (omega arith) (omega arith)
]

module _ (p : Pmm) (ls : ℕ → List ℕ) (r : FreeLists p ls) where
  alloc-fields :
      (c : ℕ)
      → p.free_head c ≢ 0
      → ((alloc_color p c).0 ≡ p.free_head c)
        × ((alloc_color p c).1.free_head ≡ upd p.free_head c (p.memory (p.free_head c)))
        × ((alloc_color p c).1.memory ≡ clear_from 512 0 (p.free_head c) p.memory)
  unfolding alloc_color
  alloc-fields c n = let e = ne→== (p.free_head c) 0 n in (rw e refl, rw e refl, rw e refl)

  taken-FreeLists :
      (c f : ℕ) (fs : List ℕ)
      → c < num_colors
      → ls c ≡ f ∷ fs
      → (alloc_color p c).0 ≡ f
        × FreeLists (alloc_color p c).1 (upd ls c fs)
        × ((i : ℕ) → i < 512 → (alloc_color p c).1.memory (f + 8 * i) ≡ 0)
  taken-FreeLists c f fs h e =
      let l = rw e at (r.linked c h) in
      let here = rw e at (r.pages c) in
      let apart = rw e at (r.no_dup c) in
      let head : p.free_head c ≡ f = l.0 in
      let (ret, heads, memory) = alloc-fields c (λ z. l.1 (sym head ∙ z)) in
      let m' = clear_from 512 0 f p.memory in
      let mem : (alloc_color p c).1.memory ≡ m' = rw head at memory in
      let hds : (alloc_color p c).1.free_head ≡ upd p.free_head c (p.memory f) =
        heads ∙ ap (λ x. upd p.free_head c (p.memory x)) head in
      let kept : (a : ℕ) → a % page_bytes ≡ 0 → a ≢ f → m' a ≡ p.memory a =
        λ a k n. clear-others 512 0 f p.memory a here.0.1 k n (omega arith) in
      (
        ret ∙ head,
        record {
          linked = λ d k.
              rw (mem, hds)
                (elim (ℕ_discrete d c) [
                  | yes q ↦
                      rw (q, ==_refl c)
                        (Linked-frame p.memory m' (p.memory f) fs
                          (others_same c f p.memory m' fs kept here.1 apart.0) l.2)
                  | no q ↦ rw (ne→== d c q) (
                      Linked-frame p.memory m' (p.free_head d) (ls d)
                        (others_same d f p.memory m' (ls d) kept (r.pages d)
                          (other_color d f (ls d) (λ w. q (sym w ∙ here.0.0)) (r.pages d)))
                        (r.linked d k))
                ]);
          pages = λ d. elim (ℕ_discrete d c) [
            | yes q ↦ rw (q, ==_refl c) here.1
            | no q ↦ rw (ne→== d c q) (r.pages d)
          ];
          no_dup = λ d. elim (ℕ_discrete d c) [
            | yes q ↦ rw (q, ==_refl c) apart.1
            | no q ↦ rw (ne→== d c q) (r.no_dup d)
          ];
        },
        λ i k. rw mem (clear-cleared 512 0 f p.memory i (omega arith) (omega arith)),
      )

  nonempty :
      (c : ℕ) → c < num_colors → p.free_head c ≢ 0 → (fs : List ℕ) × (ls c ≡ p.free_head c ∷ fs)
  nonempty c h n = go (ls c) refl
    where
      go : (xs : List ℕ) → ls c ≡ xs → (fs : List ℕ) × (ls c ≡ p.free_head c ∷ fs)
      go [] e = absurd (n (rw e at (r.linked c h)))
      go (x ∷ xs) e =
          let l = rw e at (r.linked c h) in
          let same : p.free_head c ≡ x = l.0 in (xs, e ∙ ap (λ y. y ∷ xs) (sym same))

  empty : (c : ℕ) → c < num_colors → p.free_head c ≡ 0 → ls c ≡ []
  empty c h n = go (ls c) refl
    where
      go : (xs : List ℕ) → ls c ≡ xs → ls c ≡ []
      go [] e = e
      go (x ∷ xs) e = let l = rw e at (r.linked c h) in absurd (l.1 (sym l.0 ∙ n))

pick_color_lem :
    (n : ℕ) (p : Pmm) (next : ℕ)
    → next < num_colors
    → (((pick_color n p next).0 ≡ none)
        → (i : ℕ) → i < n
        → p.free_head ((next + i) % num_colors) ≡ 0)
      × ((c : ℕ) → (pick_color n p next).0 ≡ some c → (c < num_colors) × (p.free_head c ≢ 0))
unfolding pick_color
pick_color_lem zero p next h = (λ e i k. absurd (omega arith), λ c e. absurd (ground arith))
pick_color_lem (suc n) p next h = elim (Bool-cases (p.free_head next != 0)) [
  | inl e ↦
      rw (e, pick_color)
        (
          λ q. absurd (ground arith),
          λ c q.
              let same : next ≡ c = some-inj q in (rw same at h, λ z. ground (arith, e, z, same)),
        )
  | inr e ↦
      let (a, b) = pick_color_lem n p ((next + 1) % num_colors) (omega arith) in
      let z : p.free_head next ≡ 0 = ground arith in
      rw (e, pick_color)
        (
          λ q i k. elim (ℕ_discrete i 0) [
            | yes w ↦
                let same : (next + i) % num_colors ≡ next = omega arith in ap p.free_head same ∙ z
            | no w ↦
                let same : (next + i) % num_colors
                    ≡ ((next + 1) % num_colors + (i - 1)) % num_colors =
                  omega arith in
                ap p.free_head same ∙ a q (i - 1) (omega arith)
          ],
          b,
        )
]

with_next-FreeLists :
    (p : Pmm) (ls : ℕ → List ℕ) (next : ℕ)
    → FreeLists p ls
    → FreeLists (record p { next_color = next }) ls
with_next-FreeLists p ls next r = record { linked = r.linked; pages = r.pages; no_dup = r.no_dup }

alloc-picked :
    (p : Pmm) (c : ℕ)
    → (pick_color num_colors p p.next_color).0 ≡ some c
    → pmm_alloc p none
      ≡ alloc_color (record p { next_color = (pick_color num_colors p p.next_color).1 }) c
unfolding pmm_alloc
alloc-picked p c e = rw (e, pmm_alloc) refl

alloc-none :
    (p : Pmm)
    → (pick_color num_colors p p.next_color).0 ≡ none
    → pmm_alloc p none ≡ (0, record p { next_color = (pick_color num_colors p p.next_color).1 })
unfolding pmm_alloc
alloc-none p e = rw (e, pmm_alloc) refl

-- Asked for a page of any colour, the allocator fails only if no page of any colour is free. Otherwise it
-- gives the first free page of some colour, all of whose words are 0, and the free pages are the others.
pub pmm_alloc_any :
    (p : Pmm) (ls : ℕ → List ℕ)
    → FreeLists p ls
    → p.next_color < num_colors
    → let (f, p') = pmm_alloc p none in
      ((f ≡ 0) × ((c : ℕ) → c < num_colors → ls c ≡ []))
      ⊎ ((c : ℕ) × (fs : List ℕ) × (c < num_colors)
          × (ls c ≡ f ∷ fs)
          × FreeLists p' (upd ls c fs)
          × ((i : ℕ) → i < 512 → p'.memory (f + 8 * i) ≡ 0))
pmm_alloc_any p ls r h =
    let (none_left, found) = pick_color_lem num_colors p p.next_color h in
    elim (Option-cases (pick_color num_colors p p.next_color).0) [
      | inl e ↦ inl (
        ap (λ x. x.0) (alloc-none p e),
        λ c k.
            let at_c = none_left e ((c + num_colors - p.next_color) % num_colors) (omega arith) in
            let same : (p.next_color + (c + num_colors - p.next_color) % num_colors) % num_colors
                ≡ c =
              omega arith in
            empty p ls r c k (ap p.free_head (sym same) ∙ at_c),
      )
      | inr (c, e) ↦
          let (k, n) = found c e in
          let p1 = record p { next_color = (pick_color num_colors p p.next_color).1 } in
          let r1 = with_next-FreeLists p ls (pick_color num_colors p p.next_color).1 r in
          let (fs, q) = nonempty p ls r c k n in
          let (ret, lists, cleared) = taken-FreeLists p1 ls r1 c (p.free_head c) fs k q in
          rw (alloc-picked p c e)
            (inr (c, fs, k, q ∙ ap (λ x. x ∷ fs) (sym ret), lists, rw (sym ret) at cleared))
    ]
