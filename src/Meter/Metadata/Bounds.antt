-- ===== src/Meter/Metadata/Bounds.antt =====
-- What is known of metadata that was accepted.
use Prim.Native.String.{len}
use app_module_sdk.Base.{
  ℕ, ◌+◌, ◌≤◌, String, ◌≡◌, refl, true, false, ◌||◌, Option, none, some, arith, ◌==◌, ◌≢◌,
  eq-false_of_ne, ltb, leb, Bool-cases, Option-cases, inl, inr, if◌then◌else◌,
}
use app_module_sdk.Meter.Metadata.{
  Json, null, boolean, number, text, array, object, Items, no_item, item, Members, no_member,
  member, Reader, max_depth, max_items, max_members, count_members, count_items, canonical_number,
  sized, enclosed, append, append_items, append_members, within_bytes, tree_fits, metadata_fits,
}

abbrev larger : ℕ → ℕ → ℕ
larger a b = if leb a b then b else a

-- How deep a value nests, and how many members it has at every depth.
unfoldable mutual
  pub depth_of : Json → ℕ
  depth_of null = 1
  depth_of (boolean b) = 1
  depth_of (number s) = 1
  depth_of (text s) = 1
  depth_of (array xs) = 1 + depth_items xs
  depth_of (object ms) = 1 + depth_members ms

  depth_items : Items → ℕ
  depth_items no_item = 0
  depth_items (item j xs) = larger (depth_of j) (depth_items xs)

  depth_members : Members → ℕ
  depth_members no_member = 0
  depth_members (member k j ms) = larger (depth_of j) (depth_members ms)

unfoldable mutual
  pub members_of : Json → ℕ
  members_of null = 0
  members_of (boolean b) = 0
  members_of (number s) = 0
  members_of (text s) = 0
  members_of (array xs) = members_items xs
  members_of (object ms) = count_members ms + members_members ms

  members_items : Items → ℕ
  members_items no_item = 0
  members_items (item j xs) = members_of j + members_items xs

  members_members : Members → ℕ
  members_members no_member = 0
  members_members (member k j ms) = members_of j + members_members ms

module _ (reader : Reader) where
  -- The counter grows by the members of the value, and stays within the bound if it was.
  abbrev Fits : ℕ → ℕ → ℕ → Option (ℕ × ℕ) → ℕ → Type 0
  Fits depth deep n r count =
      (s m : ℕ) → r ≡ some (s, m) → (depth + deep ≤ 5) × (m ≡ n + count) × (n ≤ 32 → m ≤ 32)

  sized-count : (n : ℕ) (o : Option ℕ) (s m : ℕ) → sized n o ≡ some (s, m) → m ≡ n
  sized-count n none s m h = cc
  sized-count n (some x) s m h = ground (arith, h)

  -- The count of an enclosed list is that of the list.
  enclosed-count :
      (o : Option (ℕ × ℕ)) (s m : ℕ) → enclosed o ≡ some (s, m) → (t : ℕ) × (o ≡ some (t, m))
  enclosed-count none s m h = cc
  enclosed-count (some (t, k)) s m h = (t, ground (arith, h))

  mutual
    unfolding append depth_of members_of

    append-Fits :
        (depth : ℕ) (j : Json) (n : ℕ)
        → Fits depth (depth_of j) n (append reader depth j n) (members_of j)
    append-Fits depth null n s m h = ground (arith, h)
    append-Fits depth (boolean b) n s m h = ground (arith, h)
    append-Fits depth (number x) n s m h = ground (arith, h, sized-count n (canonical_number x))
    append-Fits depth (text x) n s m h = ground (arith, h)
    append-Fits depth (array xs) n s m h =
        let inner = append_items reader (depth + 1) xs n in
        elim (Bool-cases (ltb max_depth depth || ltb max_items (count_items xs))) [
          | inl bad ↦ ground (arith, h, bad)
          | inr good ↦
              let low : depth ≤ 4 = ground (arith, good) in
              let opened : enclosed inner ≡ some (s, m) = ground (arith, h, good) in
              let (t, e) = enclosed-count inner s m opened in
              let (deep, count, few) =
                append_items-Fits (depth + 1) xs n (omega (arith, low)) t m e in
              ground (arith, deep, count, few, good)
        ]
    append-Fits depth (object ms) n s m h =
        let inner = append_members reader (depth + 1) ms (n + count_members ms) in
        elim (Bool-cases (ltb max_depth depth || ltb max_members (n + count_members ms))) [
          | inl bad ↦ ground (arith, h, bad)
          | inr good ↦
              let low : depth ≤ 4 = ground (arith, good) in
              let opened : enclosed inner ≡ some (s, m) = ground (arith, h, good) in
              let (t, e) = enclosed-count inner s m opened in
              let (deep, count, few) =
                append_members-Fits (depth + 1) ms (n + count_members ms) (omega (arith, low)) t m
                  e in
              ground (arith, deep, count, few, good)
        ]

    append_items-Fits :
        (depth : ℕ) (xs : Items) (n : ℕ)
        → depth ≤ 5
        → Fits depth (depth_items xs) n (append_items reader depth xs n) (members_items xs)
    append_items-Fits depth no_item n d s m h = ground (arith, d, h)
    append_items-Fits depth (item j xs) n d s m h = elim (Option-cases (append reader depth j n)) [
      | inl e ↦ ground (arith, h, e)
      | inr ((s1, m1), e) ↦ elim (Option-cases (append_items reader depth xs m1)) [
        | inl f ↦ ground (arith, h, e, f)
        | inr ((t, m2), f) ↦
            let last : m2 ≡ m = ground (arith, h, e, f) in
            let (deep1, count1, few1) = append-Fits depth j n s1 m1 e in
            let (deep2, count2, few2) = append_items-Fits depth xs m1 d t m2 f in
            ground (arith, last, deep1, count1, few1, deep2, count2, few2)
      ]
    ]

    append_members-Fits :
        (depth : ℕ) (ms : Members) (n : ℕ)
        → depth ≤ 5
        → Fits depth (depth_members ms) n (append_members reader depth ms n) (members_members ms)
    append_members-Fits depth no_member n d s m h = ground (arith, d, h)
    append_members-Fits depth (member k j ms) n d s m h =
        elim (Option-cases (append reader depth j n)) [
          | inl e ↦ ground (arith, h, e)
          | inr ((s1, m1), e) ↦ elim (Option-cases (append_members reader depth ms m1)) [
            | inl f ↦ ground (arith, h, e, f)
            | inr ((t, m2), f) ↦
                let last : m2 ≡ m = ground (arith, h, e, f) in
                let (deep1, count1, few1) = append-Fits depth j n s1 m1 e in
                let (deep2, count2, few2) = append_members-Fits depth ms m1 d t m2 f in
                ground (arith, last, deep1, count1, few1, deep2, count2, few2)
          ]
        ]

  tree_fits-object :
      (o : Option Json)
      → tree_fits reader o ≡ true
      → (ms : Members) × (o ≡ some (object ms))
        × (within_bytes reader (append reader 1 (object ms) 0) ≡ true)
  unfolding tree_fits
  tree_fits-object (some (object ms)) h = (ms, refl, ground (arith, h))
  tree_fits-object none h = cc
  tree_fits-object (some null) h = cc
  tree_fits-object (some (boolean b)) h = cc
  tree_fits-object (some (number x)) h = cc
  tree_fits-object (some (text x)) h = cc
  tree_fits-object (some (array xs)) h = cc

  within_bytes-some :
      (o : Option (ℕ × ℕ)) → within_bytes reader o ≡ true → (s : ℕ) × (m : ℕ) × (o ≡ some (s, m))
  within_bytes-some none h = cc
  within_bytes-some (some (s, m)) h = (s, m, refl)

  -- Metadata that is accepted and is not empty has 4096 bytes at most, and is an object that nests
  -- four deep at most and has 32 members at most, those of the objects inside included.
  pub metadata_fits-bounds :
      (raw : String)
      → metadata_fits reader raw ≡ true
      → raw ≢ ""
      → (ms : Members) × (reader.parse raw ≡ some (object ms))
        × (depth_of (object ms) ≤ 4)
        × (members_of (object ms) ≤ 32)
        × (len raw ≤ 4096)
  unfolding metadata_fits
  metadata_fits-bounds raw h ne =
      let not_empty : (raw == "") ≡ false = eq-false_of_ne raw "" ne in
      let fits : tree_fits reader (reader.parse raw) ≡ true = ground (arith, h, not_empty) in
      let short : len raw ≤ 4096 = ground (arith, h, not_empty) in
      let (ms, e, within) = tree_fits-object (reader.parse raw) fits in
      let (s, m, sized_as) = within_bytes-some (append reader 1 (object ms) 0) within in
      let (deep, count, few) = append-Fits 1 (object ms) 0 s m sized_as in
      (ms, e, omega (arith, deep), omega (arith, count, few (omega arith)), short)
