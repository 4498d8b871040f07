-- ===== src/Captable/Grant.antt =====
-- The table of capabilities: granting keeps what is there.
use robu_microkernel.Base.{
  ℕ, suc, ◌-◌, ◌*◌, ◌%◌, ◌^◌, ◌≤◌, ◌<◌, ◌≡◌, refl, ap, ◌∙◌, ◌≢◌, ◌⊎◌, inl, inr, Bool, true, false,
  none, some, arith, ltb, leb, ◌==◌, if◌then◌else◌, Bool-cases, Option-cases, ==_refl, ne→==, subst,
}
use robu_microkernel.Base.Words.{u32, u64, add32}
use robu_microkernel.Base.Chain.{upd}
use robu_microkernel.Untyped.{untyped_alloc}
use robu_microkernel.Captable.{
  Caps, Kcap, CapKind, entry, moved, grow, kcap_bytes, kcap_grant, validate, kind_number,
}

-- The table has room for what it counts, and there is one if it counts anything; its size is far
-- from the limit of the C type.
pub record TableIsValid (c : Caps) : Type 0 where
  pub counted : c.kcap_count ≤ c.kcap_capacity
  pub small : c.kcap_capacity < 2 ^ 31
  pub present : c.kcap_table ≡ none → c.kcap_count ≡ 0

-- What making room leaves: there is room, or nothing but the memory has changed.
record Grown (c : Caps) (room : Bool) (c' : Caps) : Type 0 where
  count_kept : c'.kcap_count ≡ c.kcap_count
  entries_kept : (i : ℕ) → i < c.kcap_count → entry c' i ≡ entry c i
  has_room : room ≡ true → (c'.kcap_count < c'.kcap_capacity) × (c'.kcap_capacity < 2 ^ 32)

moved-entry :
    (c : Caps) (i : ℕ)
    → TableIsValid c
    → i < c.kcap_count
    → moved c.kcap_table c.kcap_count i ≡ entry c i
moved-entry c i v h = elim (Option-cases c.kcap_table) [
  | inl e ↦ let z = v.present e in absurd (omega arith)
  | inr (t, e) ↦ rw e (ground arith)
]

grow-Grown : (c : Caps) → TableIsValid c → let (room, c') = grow c in Grown c room c'
unfolding grow
grow-Grown c v = elim (Bool-cases (ltb c.kcap_count c.kcap_capacity)) [
  | inl e ↦ rw e (record {
    count_kept = refl;
    entries_kept = λ i h. refl;
    has_room = λ q. ground (arith, v.small);
  })
  | inr e ↦
      let new_cap = if c.kcap_capacity == 0 then 128 else c.kcap_capacity * 2 % u32 in
      elim (Bool-cases ((untyped_alloc c.memory (new_cap * kcap_bytes % u64)).0 == 0)) [
        | inl f ↦
            rw (e, f)
              (record {
                count_kept = refl;
                entries_kept = λ i h. refl;
                has_room = λ q. absurd (ground arith);
              })
        | inr f ↦
            rw (e, f)
              (record {
                count_kept = refl;
                entries_kept = λ i h. moved-entry c i v h;
                has_room = λ q. ground (arith, v.small, v.counted);
              })
      ]
]

-- The table with one more entry.
unfoldable appended : Caps → ℕ → CapKind → ℕ → ℕ → Caps
appended c owner kind addr size =
    let n = c.kcap_count in
    let cap = record (entry c n) { kind = kind; owner = owner; addr = addr; size = size } in
    record c { kcap_table = some (upd (entry c) n cap); kcap_count = add32 n 1 }

module _ (c : Caps) (owner : ℕ) (kind : CapKind) (addr size : ℕ) where
  abbrev c' : Caps
  c' = appended c owner kind addr size

  abbrev n : ℕ
  n = c.kcap_count

  appended-entry_below : (i : ℕ) → i < n → entry c' i ≡ entry c i
  unfolding appended
  appended-entry_below i h = let ne : i ≢ n = λ e. omega arith in rw (ne→== i n ne) refl

  appended-entry :
      entry c' n ≡ record (entry c n) { kind = kind; owner = owner; addr = addr; size = size }
  unfolding appended
  appended-entry = rw (==_refl n) refl

  appended-count : n < 2 ^ 32 - 1 → c'.kcap_count ≡ suc n
  unfolding appended
  appended-count h = omega arith

  appended-room : n < c.kcap_capacity → n < 2 ^ 32 - 1 → c'.kcap_count ≤ c'.kcap_capacity
  unfolding appended
  appended-room h k = omega arith

  appended-validate : n < 2 ^ 32 - 1 → validate c' owner n kind ≡ some (entry c' n)
  unfolding validate
  appended-validate h =
      let inside : leb c'.kcap_count n ≡ false = ground (arith, appended-count h) in
      let same : (entry c' n).owner ≡ owner = ap Kcap.owner appended-entry in
      let same' : (entry c' n).kind ≡ kind = ap Kcap.kind appended-entry in
      rw (inside, same, same') (ground arith)

  appended-refuses :
      (caller : ℕ) (want : CapKind)
      → n < 2 ^ 32 - 1
      → (caller ≢ owner) ⊎ (kind_number want ≢ kind_number kind)
      → validate c' caller n want ≡ none
  unfolding validate
  appended-refuses caller want h (inl ne) =
      let same : (entry c' n).owner ≡ owner = ap Kcap.owner appended-entry in rw same (ground arith)
  appended-refuses caller want h (inr ne) =
      let same' : (entry c' n).kind ≡ kind = ap Kcap.kind appended-entry in rw same' (ground arith)

-- Slot `n` is the table's last, and holds a capability of this kind, address and size, which its
-- owner can use as this kind, and which nobody else and as no other kind can be used.
abbrev pub GrantedAt : Caps → ℕ → ℕ → CapKind → ℕ → ℕ → Type 0
GrantedAt c n owner kind addr size =
    (c.kcap_count ≡ suc n)
    × (c.kcap_count ≤ c.kcap_capacity)
    × ((entry c n).addr ≡ addr)
    × ((entry c n).size ≡ size)
    × (validate c owner n kind ≡ some (entry c n))
    × ((caller : ℕ) (want : CapKind)
        → (caller ≢ owner) ⊎ (kind_number want ≢ kind_number kind)
        → validate c caller n want ≡ none)

appended-GrantedAt :
    (c : Caps) (owner : ℕ) (kind : CapKind) (addr size : ℕ)
    → c.kcap_count < c.kcap_capacity
    → c.kcap_capacity < 2 ^ 32
    → GrantedAt (appended c owner kind addr size) c.kcap_count owner kind addr size
appended-GrantedAt c owner kind addr size h k =
    let far : c.kcap_count < 2 ^ 32 - 1 = omega arith in
    let e = appended-entry c owner kind addr size in
    let count = appended-count c owner kind addr size far in
    (
      count,
      appended-room c owner kind addr size h far,
      ap Kcap.addr e,
      ap Kcap.size e,
      appended-validate c owner kind addr size far,
      λ caller want ne. appended-refuses c owner kind addr size caller want far ne,
    )

-- On a valid table of capabilities a grant, if it fails, keeps the count and every entry below it.
-- If it succeeds, the count goes up by one, every entry below the old count is as before, also where
-- the table has moved, and the new last entry has the given kind, owner, address and size, so that
-- its owner, and nobody else, can use it as this kind and no other.
pub kcap_grant_lem :
    (c : Caps) (owner : ℕ) (kind : CapKind) (addr size : ℕ)
    → TableIsValid c
    → let (ok, c') = kcap_grant c owner kind addr size in
      ((i : ℕ) → i < c.kcap_count → entry c' i ≡ entry c i)
      × (ok ≡ false → c'.kcap_count ≡ c.kcap_count)
      × (ok ≡ true → GrantedAt c' c.kcap_count owner kind addr size)
unfolding kcap_grant appended
kcap_grant_lem c owner kind addr size v =
    let (room, c1) = grow c in
    let g = grow-Grown c v in
    elim (Bool-cases room) [
      | inl e ↦
          let (inside, small) = g.has_room e in
          rw e (
            λ i h.
                appended-entry_below c1 owner kind addr size i (rw g.count_kept h)
                ∙ g.entries_kept i h,
            λ q. absurd (ground arith),
            λ q.
                subst (λ k. GrantedAt (appended c1 owner kind addr size) k owner kind addr size)
                  g.count_kept (appended-GrantedAt c1 owner kind addr size inside small),
          )
      | inr e ↦ rw e (g.entries_kept, λ q. g.count_kept, λ q. absurd (ground arith))
    ]
