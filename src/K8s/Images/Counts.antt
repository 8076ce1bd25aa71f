-- ===== src/K8s/Images/Counts.antt =====
-- The images that count for as many nodes as there are: those that every node lists.
use abctl.Common.{
  ℕ, suc, ◌+◌, ◌≤◌, ◌<◌, String, Bool-cases, true, false, if◌then◌else◌, eqb, List, [], ◌∷◌, length,
  All, contains as list_contains, Result, ◌==◌, eq_iff, ◌≡◌, ◌↔◌, refl, inl, inr, arith,
}
use abctl.Common.Sort.{IsDistinct}
use abctl.Common.Dict.{lookup, lookup-insert, IsUnique, insert-IsUnique}
use abctl.TextSet.{contains}
use abctl.TextSet.Members.{contains-add}
use abctl.K8s.Images.{
  node_refs, or_zero, count_ref, count_refs, count_nodes, counted, existing_images,
}

-- How often a listing names an image.
tally : String → List String → ℕ
tally ref [] = 0
tally ref (r ∷ refs) = let rest = tally ref refs in if r == ref then suc rest else rest

total : String → List (Result (List String)) → ℕ
total ref [] = 0
total ref (out ∷ outs) = tally ref (node_refs out) + total ref outs

tally_absent :
    (ref : String) (refs : List String) → list_contains refs ref ≡ false → tally ref refs ≡ 0
unfolding tally
tally_absent ref [] h = refl
tally_absent ref (r ∷ refs) h = ground (arith, tally_absent ref refs)

tally_present :
    (ref : String) (refs : List String) → list_contains refs ref ≡ true → 1 ≤ tally ref refs
unfolding tally
tally_present ref [] h = cc
tally_present ref (r ∷ refs) h = ground (arith, tally_present ref refs)

tally_bound : (ref : String) (refs : List String) → IsDistinct refs → tally ref refs ≤ 1
unfolding tally
tally_bound ref [] d = omega arith
tally_bound ref (r ∷ refs) d =
    ground (arith, tally_bound ref refs, tally_absent ref refs, eq_iff r ref)

-- What the counts say of an image.
count_of : String → List (String × ℕ) → ℕ
count_of ref counts = or_zero (lookup ref counts)

count_of-count_ref :
    (ref r : String) (counts : List (String × ℕ))
    → count_of ref (count_ref r counts)
      ≡ (if r == ref then count_of ref counts + 1 else count_of ref counts)
unfolding count_of count_ref
count_of-count_ref ref r counts =
    ground (arith, lookup-insert r ref (or_zero (lookup r counts) + 1) counts, eq_iff r ref)

count_of-count_refs :
    (ref : String) (refs : List String) (counts : List (String × ℕ))
    → count_of ref (count_refs refs counts) ≡ tally ref refs + count_of ref counts
unfolding count_refs tally
count_of-count_refs ref [] counts = omega arith
count_of-count_refs ref (r ∷ refs) counts =
    ground
      (arith, count_of-count_refs ref refs (count_ref r counts), count_of-count_ref ref r counts)

count_of-count_nodes :
    (ref : String) (outs : List (Result (List String))) (counts : List (String × ℕ))
    → count_of ref (count_nodes outs counts) ≡ total ref outs + count_of ref counts
unfolding count_nodes total
count_of-count_nodes ref [] counts = omega arith
count_of-count_nodes ref (out ∷ outs) counts = omega (
  arith,
  count_of-count_nodes ref outs (count_refs (node_refs out) counts),
  count_of-count_refs ref (node_refs out) counts,
)

count_refs-IsUnique :
    (refs : List String) (counts : List (String × ℕ))
    → IsUnique counts
    → IsUnique (count_refs refs counts)
unfolding count_refs count_ref
count_refs-IsUnique [] counts u = u
count_refs-IsUnique (r ∷ refs) counts u =
    count_refs-IsUnique refs _ (insert-IsUnique r (or_zero (lookup r counts) + 1) counts u)

count_nodes-IsUnique :
    (outs : List (Result (List String))) (counts : List (String × ℕ))
    → IsUnique counts
    → IsUnique (count_nodes outs counts)
unfolding count_nodes
count_nodes-IsUnique [] counts u = u
count_nodes-IsUnique (out ∷ outs) counts u =
    count_nodes-IsUnique outs _ (count_refs-IsUnique (node_refs out) counts u)

-- The images counted `n` times, for an `n` that a missing entry does not have.
contains-counted :
    (n : ℕ) (ref : String) (counts : List (String × ℕ))
    → IsUnique counts
    → 0 < n
    → contains (counted n counts) ref ≡ eqb (count_of ref counts) n
unfolding counted contains count_of lookup
contains-counted n ref [] u some_nodes = ground arith
contains-counted n ref ((r, count) ∷ counts) (fresh, u) some_nodes = ground (
  arith,
  contains-counted n ref counts u some_nodes,
  contains-add r ref (counted n counts),
  eq_iff r ref,
)

-- Every node lists the image.
abbrev pub EveryNodeLists : String → List (Result (List String)) → Type 0
EveryNodeLists ref outs = All (λ out. list_contains (node_refs out) ref ≡ true) outs

abbrev pub NoRepeats : List (Result (List String)) → Type 0
NoRepeats outs = All (λ out. IsDistinct (node_refs out)) outs

total_bound :
    (ref : String) (outs : List (Result (List String)))
    → NoRepeats outs
    → total ref outs ≤ length outs
unfolding total
total_bound ref [] d = omega arith
total_bound ref (out ∷ outs) (d, ds) =
    omega (arith, tally_bound ref (node_refs out) d, total_bound ref outs ds)

total-full :
    (ref : String) (outs : List (Result (List String)))
    → NoRepeats outs
    → (total ref outs ≡ length outs) ↔ EveryNodeLists ref outs
unfolding total
total-full ref [] d = (λ eq. tt, λ every. refl)
total-full ref (out ∷ outs) (d, ds) =
    let (down, up) = total-full ref outs ds in
    let one = tally_bound ref (node_refs out) d in
    let most = total_bound ref outs ds in
    (
      λ eq. (
        elim (Bool-cases (list_contains (node_refs out) ref)) [
          | inl there ↦ there
          | inr absent ↦ absurd (omega (arith, tally_absent ref (node_refs out) absent))
        ],
        down (omega arith),
      ),
      λ every. omega (arith, up every.1, tally_present ref (node_refs out) every.0),
    )

-- If no node lists an image twice, the images that are taken as existing are those that every node
-- lists: a node whose listing fails, is empty or has no REF header lists none.
pub existing_images_all :
    (ref : String) (outs : List (Result (List String)))
    → 0 < length outs
    → NoRepeats outs
    → (contains (existing_images outs) ref ≡ true) ↔ EveryNodeLists ref outs
unfolding existing_images count_of lookup
existing_images_all ref outs some_nodes d =
    let (down, up) = total-full ref outs d in
    let count = count_of-count_nodes ref outs [] in
    let held =
      contains-counted (length outs) ref (count_nodes outs []) (count_nodes-IsUnique outs [] tt)
        some_nodes in
    (λ h. down (ground arith), λ every. let full = up every in ground arith)
