-- ===== src/Ids/RoundTrip.antt =====
-- internal/ids/uuid.go: the canonical and the compact spelling are one identity.
use Prim.Native.Char.{Char, char, code}
use Prim.Native.String.{◌++◌}
use Prim.Native.String.append
use app_module_sdk.Base.{
  String, ◌≡◌, refl, sym, ap, ◌∙◌, Bool, true, false, some, List, [], ◌∷◌, arith, eqb,
}
use app_module_sdk.Ids.{
  matches, times, is_hex, is_dash, is_version, is_variant, from_fourth, from_third, from_second,
  is_uuid, is_compact, without_dashes, drop, normalize_module_id, hyphenate, canonical_module_id,
}
use app_module_sdk.Ids.Groups.{
  Run, split-dash, split-narrow, joined, packed, without_dashes-joined, hyphenate-packed,
  packed-compact,
}

-- Two patterns exclude each other where their first classes do.
excludes :
    (p q : Char → Bool) (ps qs : List (Char → Bool)) (s : String)
    → ((c : Char) → p c ≡ true → q c ≡ false)
    → matches (p ∷ ps) s ≡ true
    → matches (q ∷ qs) s ≡ false
unfolding matches
excludes p q ps qs String.[] f h = cc
excludes p q ps qs (String.◌∷◌ c s) f h =
    let no_match : q c ≡ false = f c (ground (arith, h)) in rw no_match refl

uuid_not_compact : (s : String) → is_uuid s ≡ true → is_compact s ≡ false
unfolding is_uuid is_compact
uuid_not_compact s h =
    excludes is_hex (λ c. eqb (code c) 109) (times 7 is_hex (is_dash ∷ from_second))
      (times 32 is_hex []) s (λ c k. ground (arith, k)) h

compact_not_uuid : (s : String) → is_compact s ≡ true → is_uuid s ≡ false
unfolding is_uuid is_compact
compact_not_uuid s h =
    excludes (λ c. eqb (code c) 109) is_hex (times 32 is_hex [])
      (times 7 is_hex (is_dash ∷ from_second)) s (λ c k. ground (arith, k)) h

-- A canonical identity is five groups of digits.
uuid-groups :
    (u : String)
    → is_uuid u ≡ true
    → (a : String) × (b : String) × (c : String) × (d : String) × (e : String) × Run 8 is_hex a
      × Run 4 is_hex b
      × Run 4 is_hex c
      × Run 4 is_hex d
      × Run 12 is_hex e
      × (u ≡ joined a b c d e)
unfolding is_uuid
uuid-groups u h =
    let (a, s, p, ha, m) = split-dash 8 from_second u h in
    let (b, t, q, hb, n) = split-dash 4 from_third s m in
    let (c, v, r, hc, o) = split-narrow is_version from_fourth t (λ x k. ground (arith, k)) n in
    let (d, e, w, hd, he) =
      split-narrow is_variant (times 12 is_hex []) v (λ x k. ground (arith, k)) o in
    (
      a,
      b,
      c,
      d,
      e,
      ha,
      hb,
      hc,
      hd,
      he,
      p
          ∙ ap (λ x. a ++ ("-" ++ x))
              (q ∙ ap (λ x. b ++ ("-" ++ x)) (r ∙ ap (λ x. c ++ ("-" ++ x)) w)),
    )

marked : (h : String) → "m" ++ h ≡ String.◌∷◌ (char 109 tt) h
marked h = append.cons (char 109 tt) "" h ∙ ap (λ t. String.◌∷◌ (char 109 tt) t) (append.nil h)

is_compact-marked :
    (h : String) → matches (times 32 is_hex []) h ≡ true → is_compact ("m" ++ h) ≡ true
unfolding is_compact matches
is_compact-marked h k = rw (marked h) k

drop-marked : (h : String) → drop 1 ("m" ++ h) ≡ h
unfolding drop
drop-marked h = rw (marked h) refl

-- A canonical identity has a compact spelling, and the canonical spelling of that is the identity.
pub canonical-normalize :
    (u : String)
    → is_uuid u ≡ true
    → (m : String) × (normalize_module_id u ≡ some m) × (canonical_module_id m ≡ some u)
unfolding normalize_module_id canonical_module_id
canonical-normalize u h =
    let (a, b, c, d, e, ha, hb, hc, hd, he, groups) = uuid-groups u h in
    let p = packed a b c d e in
    let shut : without_dashes u ≡ p =
      ap without_dashes groups ∙ without_dashes-joined a b c d e ha hb hc hd he in
    let compact = is_compact-marked p (packed-compact a b c d e ha hb hc hd he) in
    let back : hyphenate (drop 1 ("m" ++ p)) ≡ u =
      ap hyphenate (drop-marked p) ∙ hyphenate-packed a b c d e ha hb hc hd he ∙ sym groups in
    (
      "m" ++ p,
      rw (uuid_not_compact u h, h, shut) refl,
      rw (compact_not_uuid ("m" ++ p) compact, compact, back) refl,
    )
