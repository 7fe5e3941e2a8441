-- ===== src/PtImage/Stored.antt =====
-- src/ptimgchk.cc: the comparison of the last store reads no more and no less than what was stored.
use vexllvm.Base.{
  ℕ, zero, suc, ◌+◌, ◌-◌, ◌*◌, ◌%◌, ◌<◌, ◌≤◌, ◌≡◌, ◌↔◌, refl, sym, ap, ◌∙◌, arith, inl, inr, Bool,
  true, false, some, ltb, leb, ◌==◌, ==_iff, if◌then◌else◌, Bool-cases, ok,
}
use vexllvm.PtShadow.Compare.{passes_from}
use vexllvm.PtShadow.Matched.{AllBelow, below, at, passes_from_lem}
use vexllvm.PtImage.MemLog.{
  MemLog, max_store_bytes, memlog_buf_sz, peek_long, peek_longs, move_down, read_mem_log_data,
  is_match_mem_log,
}

-- What a round leaves: the bytes before those of round k, and from there the process's memory.
record IsPeeked (native : ℕ → ℕ) (aligned end k : ℕ) (bytes bytes' : ℕ → ℕ) : Type 0 where
  kept : (j : ℕ) → j < 8 * k → bytes' j ≡ bytes j
  read : (j : ℕ) → aligned + j < end → bytes' (8 * k + j) ≡ native (aligned + j)

peek_long-inside :
    (native : ℕ → ℕ) (aligned k : ℕ) (bytes : ℕ → ℕ) (j : ℕ)
    → j < 8
    → peek_long native aligned k bytes (8 * k + j) ≡ native (aligned + j)
unfolding peek_long
peek_long-inside native aligned k bytes j h =
    let e : 8 * k + j - 8 * k ≡ j = omega arith in
    let from_k : leb (8 * k) (8 * k + j) ≡ true = ground arith in
    let to_k : ltb (8 * k + j) (8 * k + 8) ≡ true = ground arith in rw (from_k, to_k, e) refl

peek_long-before :
    (native : ℕ → ℕ) (aligned k : ℕ) (bytes : ℕ → ℕ) (j : ℕ)
    → j < 8 * k
    → peek_long native aligned k bytes j ≡ bytes j
unfolding peek_long
peek_long-before native aligned k bytes j h =
    let outside : leb (8 * k) j ≡ false = ground arith in rw outside refl

peek_longs_lem :
    (fuel : ℕ) (native : ℕ → ℕ) (aligned end k : ℕ) (bytes : ℕ → ℕ)
    → end ≤ aligned + fuel
    → (8 * k + end ≤ 24 + aligned)
    → (bytes' : ℕ → ℕ) × (peek_longs fuel native aligned end k bytes ≡ ok bytes')
      × IsPeeked native aligned end k bytes bytes'
unfolding peek_longs
peek_longs_lem zero native aligned end k bytes enough fits =
    (bytes, refl, record { kept = λ j h. refl; read = λ j h. absurd (omega arith) })
peek_longs_lem (suc fuel) native aligned end k bytes enough fits =
    elim (Bool-cases (ltb aligned end)) [
      | inl more ↦
          let (bytes', done, p) =
            peek_longs_lem fuel native (aligned + 8) end (suc k) (peek_long native aligned k bytes)
              (omega arith) (omega arith) in
          let roomy : ltb memlog_buf_sz (8 * k + 8) ≡ false = ground arith in
          (
            bytes',
            rw (more, roomy) done,
            record {
              kept = λ j h. p.kept j (omega arith) ∙ peek_long-before native aligned k bytes j h;
              read = λ j h. elim (Bool-cases (ltb j 8)) [
                | inl inside ↦
                    p.kept (8 * k + j) (ground arith)
                    ∙ peek_long-inside native aligned k bytes j (ground arith)
                | inr behind ↦
                    let here : 8 * suc k + (j - 8) ≡ 8 * k + j = ground arith in
                    let there : aligned + 8 + (j - 8) ≡ aligned + j = ground arith in
                    sym (ap bytes' here) ∙ (p.read (j - 8) (ground arith) ∙ ap native there)
              ];
            },
          )
      | inr stop ↦
          (bytes, rw stop refl, record { kept = λ j h. refl; read = λ j h. absurd (ground arith) })
    ]

read_mem_log_data_lem :
    (native : ℕ → ℕ) (l : MemLog)
    → l.size ≤ max_store_bytes
    → (bytes : ℕ → ℕ) × (read_mem_log_data native l ≡ ok bytes)
      × ((j : ℕ) → j < l.size → bytes j ≡ native (l.address + j))
unfolding read_mem_log_data move_down
read_mem_log_data_lem native l small =
    let extra = l.address % 8 in
    let aligned = l.address - extra in
    let end = l.address + l.size in
    let (bytes, done, p) =
      peek_longs_lem (end - aligned) native aligned end 0 (λ j. 0) (omega arith) (omega arith) in
    let byte_at : (j : ℕ) → aligned + j < end → bytes j ≡ native (aligned + j) =
      λ j h. let e : 8 * 0 + j ≡ j = omega arith in sym (ap bytes e) ∙ p.read j h in
    elim (Bool-cases (extra == 0)) [
      | inl whole ↦ (
        bytes,
        rw (done, whole) refl,
        λ j h.
            let e : extra ≡ 0 = (==_iff extra 0).0 whole in
            let there : aligned + j ≡ l.address + j = omega arith in
            byte_at j (omega arith) ∙ ap native there,
      )
      | inr shifted ↦
          let fits : ltb memlog_buf_sz (extra + l.size) ≡ false = ground arith in
          (
            λ j. if ltb j l.size then bytes (extra + j) else bytes j,
            rw (done, shifted, fits) refl,
            λ j h.
                let inside : ltb j l.size ≡ true = ground arith in
                let there : aligned + (extra + j) ≡ l.address + j = omega arith in
                rw inside (byte_at (extra + j) (omega arith) ∙ ap native there),
          )
    ]

-- For a log of at most 16 bytes, isMatchMemLog returns, and reads only inside of its buffer; it
-- answers true exactly if the process and the guest hold the same bytes where the store was
-- made.
pub is_match_mem_log_lem :
    (native guest : ℕ → ℕ) (l : MemLog)
    → l.size ≤ max_store_bytes
    → (b : Bool) × (is_match_mem_log native guest (some l) ≡ ok b)
      × ((b ≡ true) ↔ AllBelow l.size (λ j. native (l.address + j) ≡ guest (l.address + j)))
unfolding is_match_mem_log
is_match_mem_log_lem native guest l small =
    let (bytes, done, same) = read_mem_log_data_lem native l small in
    let test : ℕ → Bool = λ j. bytes j == guest (l.address + j) in
    let (to, back) = passes_from_lem l.size test in
    (
      passes_from 0 l.size test,
      rw done refl,
      (
        λ h. below l.size λ j d.
            sym (same j d)
            ∙ (==_iff (bytes j) (guest (l.address + j))).0
                (at (λ i. test i ≡ true) l.size j d (to h)),
        λ h. back (
            below l.size λ j d.
              (==_iff (bytes j) (guest (l.address + j))).1
                (same j d ∙ at (λ i. native (l.address + i) ≡ guest (l.address + i)) l.size j d h)),
      ),
    )
