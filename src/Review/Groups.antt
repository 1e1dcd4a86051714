-- ===== src/Review/Groups.antt =====
-- Every signature of the audit trail is reviewed with the number of its verdicts.
use arbiter_ai.Base.{
  ◌+◌, String, ◌≡◌, refl, false, List, [], ◌∷◌, ◌==◌, tally, if◌then◌else◌, Bool-cases, inl, inr,
  arith, eq_iff,
}
use arbiter_ai.Review.{TrailEntry, ReviewItem, of_entry, count_of, put_item, collect}

count_of-put_item :
    (s : String) (i : ReviewItem) (items : List ReviewItem)
    → count_of s (put_item i items) ≡ (if of_entry s i then i.count else count_of s items)
unfolding count_of put_item
count_of-put_item s i [] = refl
count_of-put_item s i (j ∷ items) = ground (
  arith,
  count_of-put_item s i items,
  eq_iff j.entry.signature i.entry.signature,
  eq_iff j.entry.signature s,
  eq_iff i.entry.signature s,
)

-- The loop over the audit trail gives every signature that is not empty the count that it had and one
-- for each line of the trail with that signature.
count_of-collect :
    (s : String) (es : List TrailEntry) (items : List ReviewItem)
    → (s == "") ≡ false
    → count_of s (collect es items) ≡ count_of s items + tally (λ e. e.signature == s) es
unfolding collect
count_of-collect s [] items h = omega arith
count_of-collect s (e ∷ es) items h = elim (Bool-cases (e.signature == "")) [
  | inl blank ↦ rw blank (
      ground (
        arith,
        count_of-collect s es items h,
        eq_iff e.signature "",
        eq_iff e.signature s,
        blank,
        h,
      ))
  | inr named ↦
      let counted : ReviewItem = record { entry = e; count = count_of e.signature items + 1 } in
      rw named (
        ground (
          arith,
          count_of-collect s es (put_item counted items) h,
          count_of-put_item s counted items,
          eq_iff e.signature s,
        ))
]
