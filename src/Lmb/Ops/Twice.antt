-- ===== src/Lmb/Ops/Twice.antt =====
-- Two calls of `lmb_alloc_base` in a row.
use shield_tv_loader.Base.{ℕ, ◌+◌, ◌^◌, ◌≤◌, ◌<◌, ◌≡◌, ◌≢◌, ◌⊎◌, inl, inr, Option, some}
use shield_tv_loader.Lmb.{Lmb}
use shield_tv_loader.Lmb.Sorted.{IsWf}
use shield_tv_loader.Lmb.Add.Result.{IsTable, IsSeparated}
use shield_tv_loader.Lmb.Ops.{lmb_align_up, lmb_alloc_base}
use shield_tv_loader.Lmb.Ops.Allocation.{
  Allocated, lmb_alloc_base-Allocated, Allocated-Outcome, Allocated-twice,
}

-- What a caller asks for, with an alignment of 2 ^ k.
pub record Request : Type 0 where
  pub k : ℕ
  pub size : ℕ
  pub max_addr : ℕ
  pub type : ℕ
  pub tag : ℕ

abbrev pub rounded : Request → ℕ
rounded q = lmb_align_up q.size (2 ^ q.k)

abbrev pub allocate : Lmb → Request → Option (ℕ × Lmb)
allocate lmb q = lmb_alloc_base lmb q.size (2 ^ q.k) q.max_addr q.type q.tag

-- The alignment is a 64-bit number, the rounded size is not 0 and fits under the limit.
pub record IsSensible (q : Request) : Type 0 where
  pub word : q.k < 64
  pub pos_size : 0 < rounded q
  pub limit : q.max_addr ≢ 0 → rounded q ≤ q.max_addr

allocate-Allocated :
    (lmb : Lmb) (q : Request) (addr : ℕ) (lmb' : Lmb)
    → IsWf lmb.memory
    → IsTable lmb.reserved
    → IsSensible q
    → allocate lmb q ≡ some (addr, lmb')
    → addr ≢ 0
    → Allocated q.k (rounded q) q.max_addr q.type q.tag lmb addr lmb'
allocate-Allocated lmb q addr lmb' w t s e ne =
    elim (lmb_alloc_base-Allocated lmb q.k q.size q.max_addr q.type q.tag addr lmb' s.word w t
      s.pos_size s.limit e) [ inl failed ↦ absurd (ne failed.0) | inr found ↦ found ]

-- The ranges of two successful allocations in a row, of the rounded sizes, share no address, where
-- before the first the memory table and the reservations were in order and no two reservations of
-- one tag and type touched, and each request has an alignment 2 ^ k below 2 ^ 64 and a rounded size
-- that is not 0 and not above its limit, if it has one.
pub allocate_twice :
    (lmb lmb1 lmb2 : Lmb) (q1 q2 : Request) (addr1 addr2 : ℕ)
    → IsWf lmb.memory
    → IsTable lmb.reserved
    → IsSeparated lmb.reserved
    → IsSensible q1
    → IsSensible q2
    → allocate lmb q1 ≡ some (addr1, lmb1)
    → addr1 ≢ 0
    → allocate lmb1 q2 ≡ some (addr2, lmb2)
    → addr2 ≢ 0
    → (addr1 + rounded q1 ≤ addr2) ⊎ (addr2 + rounded q2 ≤ addr1)
allocate_twice lmb lmb1 lmb2 q1 q2 addr1 addr2 w t sep s1 s2 e1 ne1 e2 ne2 =
    let a1 = allocate-Allocated lmb q1 addr1 lmb1 w t s1 e1 ne1 in
    let o =
      Allocated-Outcome lmb q1.k (rounded q1) q1.max_addr q1.type q1.tag addr1 lmb1 w t s1.pos_size
        a1 in
    let w1 : IsWf lmb1.memory = rw a1.placed.stored w in
    let t1 : IsTable lmb1.reserved = rw a1.placed.stored (inr o.wf) in
    let a2 = allocate-Allocated lmb1 q2 addr2 lmb2 w1 t1 s2 e2 ne2 in
    Allocated-twice lmb lmb1 lmb2 q1.k (rounded q1) q1.max_addr q1.type q1.tag addr1 q2.k
      (rounded q2) q2.max_addr q2.type q2.tag addr2 w t sep s1.pos_size s2.pos_size a1 a2
