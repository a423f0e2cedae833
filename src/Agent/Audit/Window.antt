-- ===== src/Agent/Audit/Window.antt =====
-- Histories of the audit records of extensions/agent/audit.go.
use mathlib.Core.List.{append_assoc, append-nil}
use gin_bear.Base.{
  ℕ, zero, suc, ◌+◌, ◌-◌, ◌≤◌, ◌<◌, ◌^◌, ◌≡◌, refl, sym, subst, ap, ◌∙◌, inl, inr, false,
  Bool-cases, List, [], ◌∷◌, ◌++◌, length, length-append, ltb, arith,
}
use gin_bear.Base.Int.{pos, leb_ℤ, ◌+ℤ◌, add64, wrap_of_InRange}
use gin_bear.Agent.Audit.{AuditRecord, Auditor, new_auditor, drop, stamped, retain, append}

drop-nil : (n : ℕ) → drop n [] ≡ []
drop-nil zero = refl
drop-nil (suc n) = refl

length-drop : (n : ℕ) (rs : List AuditRecord) → length (drop n rs) ≡ length rs - n
length-drop zero rs = omega arith
length-drop (suc n) [] = omega arith
length-drop (suc n) (r ∷ rs) = omega (arith, length-drop n rs)

drop-append :
    (n : ℕ) (rs ss : List AuditRecord) → n ≤ length rs → drop n (rs ++ ss) ≡ drop n rs ++ ss
drop-append zero rs ss h = refl
drop-append (suc n) [] ss h = absurd (omega (arith, h))
drop-append (suc n) (r ∷ rs) ss h = drop-append n rs ss (omega (arith, h))

drop-drop : (m n k : ℕ) (rs : List AuditRecord) → k ≡ n + m → drop m (drop n rs) ≡ drop k rs
drop-drop m zero k rs h = ap (λ j. drop j rs) (omega (arith, h))
drop-drop m (suc n) zero rs h = absurd (omega (arith, h))
drop-drop m (suc n) (suc k) (r ∷ rs) h = drop-drop m n k rs (omega (arith, h))
drop-drop zero (suc n) (suc k) [] h = refl
drop-drop (suc m) (suc n) (suc k) [] h = refl

-- The records of a history, each with the time at which it was appended.
abbrev pub stamp_all : List (ℕ × AuditRecord) → List AuditRecord
stamp_all [] = []
stamp_all ((now, r) ∷ hs) = stamped now r ∷ stamp_all hs

-- The auditor after a history.
abbrev pub append_all : List (ℕ × AuditRecord) → Auditor → Auditor
append_all [] a = a
append_all ((now, r) ∷ hs) a = append_all hs (append now r a)

leb_of_ltb : (a b : ℕ) → ltb a b ≡ false → b ≤ a
leb_of_ltb a b h = ground arith

pos_sum : (a b : ℕ) → pos a +ℤ pos b ≡ pos (a + b)
unfolding ◌+ℤ◌
pos_sum a b = ground arith

add64_pos : (a b : ℕ) → a + b < 2 ^ 63 → add64 (pos a) (pos b) ≡ pos (a + b)
unfolding add64
add64_pos a b h = rw (pos_sum a b) (wrap_of_InRange (pos (a + b)) (h, omega arith))

-- The auditor holds the last records of a history, as many as it retains, and counts the others.
pub record Keeps (retained : ℕ) (hs : List AuditRecord) (a : Auditor) : Type 0 where
  pub limit : a.retained ≡ retained
  pub records : a.records ≡ drop (length hs - retained) hs
  pub dropped : a.dropped ≡ pos (length hs - retained)

-- How long the records are after one more.
module _ (R : ℕ) (a : Auditor) (hs : List AuditRecord) (x : AuditRecord) (keeps : Keeps R hs a)
    (few : length hs + 1 < 2 ^ 63) where
  abbrev after : List AuditRecord
  after = hs ++ x ∷ []

  longer : a.records ++ x ∷ [] ≡ drop (length hs - R) after
  longer =
      ap (λ rs. rs ++ x ∷ []) keeps.records
      ∙ sym (drop-append (length hs - R) hs (x ∷ []) (omega arith))

  length-after : length after ≡ length hs + 1
  length-after = length-append hs (x ∷ [])

  length_longer : length (a.records ++ x ∷ []) ≡ length hs + 1 - (length hs - R)
  length_longer =
      ap length longer
      ∙ length-drop (length hs - R) after
      ∙ ap (λ n. n - (length hs - R)) length-after

  over : length after - R ≡ (length hs - R) + (length (a.records ++ x ∷ []) - a.retained)
  over =
      let limit = keeps.limit in
      let h = length-after in let h' = length_longer in omega (arith, limit, h, h')

  none_over :
      ltb a.retained (length (a.records ++ x ∷ [])) ≡ false → length hs - R ≡ length after - R
  none_over room =
      let limit = keeps.limit in
      let h = length-after in
      let h' = length_longer in
      let fits = leb_of_ltb a.retained (length (a.records ++ x ∷ [])) room in
      omega (arith, limit, h, h', fits)

  retain-Keeps : Keeps R after (retain a (a.records ++ x ∷ []))
  retain-Keeps = elim (Bool-cases (ltb a.retained (length (a.records ++ x ∷ [])))) [
    | inl full ↦
        let cut = length (a.records ++ x ∷ []) - a.retained in
        rw full (record {
          limit = keeps.limit;
          records =
              ap (drop cut) longer ∙ drop-drop cut (length hs - R) (length after - R) after over;
          dropped =
              ap (λ n. add64 n (pos cut)) keeps.dropped
              ∙ add64_pos (length hs - R) cut
                  (let h = over in let h' = length-after in omega (arith, h, h', few))
              ∙ ap pos (sym over);
        })
    | inr room ↦ rw room (record {
      limit = keeps.limit;
      records = longer ∙ ap (λ n. drop n after) (none_over room);
      dropped = keeps.dropped ∙ ap pos (none_over room);
    })
  ]

append_all-Keeps :
    (R : ℕ) (hs : List (ℕ × AuditRecord)) (before : List AuditRecord) (a : Auditor)
    → Keeps R before a
    → length before + length hs < 2 ^ 63
    → Keeps R (before ++ stamp_all hs) (append_all hs a)
unfolding append
append_all-Keeps R [] before a keeps few = rw (append-nil before) keeps
append_all-Keeps R ((now, r) ∷ hs) before a keeps few =
    let x = stamped now r in
    let size = length-append before (x ∷ []) in
    let one = retain-Keeps R a before x keeps (omega (arith, few)) in
    let all =
      append_all-Keeps R hs (before ++ x ∷ []) (append now r a) one (omega (arith, few, size)) in
    subst (λ rs. Keeps R rs (append_all hs (append now r a)))
      (append_assoc before (x ∷ []) (stamp_all hs)) all

-- Whatever is appended, fewer than 2 ^ 63 records in all, an auditor that is to retain `retained` of
-- them, a positive number, holds exactly the last `retained` records, in order and with their times,
-- and its counter is the number of the others.
pub append_all-new_auditor :
    (retained : ℕ) (hs : List (ℕ × AuditRecord))
    → 0 < retained
    → length hs < 2 ^ 63
    → Keeps retained (stamp_all hs) (append_all hs (new_auditor (pos retained)))
unfolding new_auditor leb_ℤ
append_all-new_auditor retained hs some_retained few =
    append_all-Keeps retained hs [] (new_auditor (pos retained))
      (record {
        limit = ground arith;
        records = sym (drop-nil (0 - retained));
        dropped = ap pos (omega arith);
      })
      (omega (arith, few))
