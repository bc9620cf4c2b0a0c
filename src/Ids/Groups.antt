-- ===== src/Ids/Groups.antt =====
-- The groups of digits of an identity, with and without the dashes between them.
use Prim.Native.Char.{Char, char, code}
use Prim.Native.String.{◌++◌}
use Prim.Native.String.append
use text.Mathlib.TextEquality.{Char-path}
use app_module_sdk.Base.{
  ℕ, zero, suc, ◌+◌, String, ◌≡◌, refl, sym, ap, ◌∙◌, Bool, true, false, List, [], ◌∷◌, arith,
}
use app_module_sdk.Ids.{matches, times, is_hex, is_dash, without_dashes, take, drop, hyphenate}

-- n characters of a class.
abbrev pub Run : ℕ → (Char → Bool) → String → Type 0
Run n p s = matches (times n p []) s ≡ true

-- A match of n characters of a class and more is such a run before a match of the rest.
split-times :
    (n : ℕ) (p : Char → Bool) (ps : List (Char → Bool)) (s : String)
    → matches (times n p ps) s ≡ true
    → (a : String) × (b : String) × (s ≡ a ++ b) × Run n p a × (matches ps b ≡ true)
unfolding matches
split-times zero p ps s h = ("", s, sym (append.nil s), refl, h)
split-times (suc n) p ps String.[] h = cc
split-times (suc n) p ps (String.◌∷◌ c s) h =
    let here : p c ≡ true = ground (arith, h) in
    let there : matches (times n p ps) s ≡ true = ground (arith, h) in
    let (a, b, e, run, rest) = split-times n p ps s there in
    (
      String.◌∷◌ c a,
      b,
      ap (λ t. String.◌∷◌ c t) e ∙ sym (append.cons c a b),
      ground (arith, here, run),
      rest,
    )

take-run : (n : ℕ) (p : Char → Bool) (a b : String) → Run n p a → take n (a ++ b) ≡ a
unfolding take matches
take-run zero p String.[] b h = refl
take-run zero p (String.◌∷◌ c a) b h = cc
take-run (suc n) p String.[] b h = cc
take-run (suc n) p (String.◌∷◌ c a) b h =
    rw (append.cons c a b) (ap (λ t. String.◌∷◌ c t) (take-run n p a b (ground (arith, h))))

drop-run : (n : ℕ) (p : Char → Bool) (a b : String) → Run n p a → drop n (a ++ b) ≡ b
unfolding drop matches
drop-run zero p String.[] b h = append.nil b
drop-run zero p (String.◌∷◌ c a) b h = cc
drop-run (suc n) p String.[] b h = cc
drop-run (suc n) p (String.◌∷◌ c a) b h =
    rw (append.cons c a b) (drop-run n p a b (ground (arith, h)))

-- A run of digits has no dash.
without_dashes-run :
    (n : ℕ) (a b : String) → Run n is_hex a → without_dashes (a ++ b) ≡ a ++ without_dashes b
unfolding without_dashes matches
without_dashes-run zero String.[] b h =
    ap without_dashes (append.nil b) ∙ sym (append.nil (without_dashes b))
without_dashes-run zero (String.◌∷◌ c a) b h = cc
without_dashes-run (suc n) String.[] b h = cc
without_dashes-run (suc n) (String.◌∷◌ c a) b h =
    let no_dash : is_dash c ≡ false = ground (arith, h) in
    let rest = without_dashes-run n a b (ground (arith, h)) in
    rw (append.cons c a b, append.cons c a (without_dashes b), without_dashes)
      (rw (no_dash, rest) refl)

drop-more :
    (n m : ℕ) (p : Char → Bool) (a b : String) → Run n p a → drop (n + m) (a ++ b) ≡ drop m b
unfolding drop matches
drop-more zero m p String.[] b h = let e : 0 + m ≡ m = omega arith in rw (e, append.nil b) refl
drop-more zero m p (String.◌∷◌ c a) b h = cc
drop-more (suc n) m p String.[] b h = cc
drop-more (suc n) m p (String.◌∷◌ c a) b h =
    let e : suc n + m ≡ suc (n + m) = omega arith in
    rw (append.cons c a b, e) (drop-more n m p a b (ground (arith, h)))

join-times :
    (n : ℕ) (p : Char → Bool) (ps : List (Char → Bool)) (a b : String)
    → Run n p a
    → matches ps b ≡ true
    → matches (times n p ps) (a ++ b) ≡ true
unfolding matches
join-times zero p ps String.[] b h k = rw (append.nil b) k
join-times zero p ps (String.◌∷◌ c a) b h k = cc
join-times (suc n) p ps String.[] b h k = cc
join-times (suc n) p ps (String.◌∷◌ c a) b h k =
    let first : p c ≡ true = ground (arith, h) in
    rw (append.cons c a b) (ground (arith, first, join-times n p ps a b (ground (arith, h)) k))

-- A character of a class before the rest.
split-one :
    (p : Char → Bool) (ps : List (Char → Bool)) (s : String)
    → matches (p ∷ ps) s ≡ true
    → (c : Char) × (b : String) × (s ≡ String.◌∷◌ c b) × (p c ≡ true) × (matches ps b ≡ true)
unfolding matches
split-one p ps String.[] h = cc
split-one p ps (String.◌∷◌ c s) h = (c, s, refl, ground (arith, h), ground (arith, h))

-- The text of a dash, and what follows it.
dash_of : (c : Char) (b : String) → is_dash c ≡ true → String.◌∷◌ c b ≡ "-" ++ b
dash_of c b h =
    let n : code c ≡ 45 = ground (arith, h) in
    let same = Char-path c (char 45 tt) n in
    ap (λ d. String.◌∷◌ d b) same
    ∙ sym (append.cons (char 45 tt) "" b ∙ ap (λ t. String.◌∷◌ (char 45 tt) t) (append.nil b))

-- A run of digits, a dash, and the rest.
pub split-dash :
    (n : ℕ) (ps : List (Char → Bool)) (s : String)
    → matches (times n is_hex (is_dash ∷ ps)) s ≡ true
    → (a : String) × (b : String) × (s ≡ a ++ ("-" ++ b)) × Run n is_hex a × (matches ps b ≡ true)
split-dash n ps s h =
    let (a, t, e, run, rest) = split-times n is_hex (is_dash ∷ ps) s h in
    let (c, b, e', d, tail) = split-one is_dash ps t rest in
    (a, b, e ∙ ap (λ x. a ++ x) (e' ∙ dash_of c b d), run, tail)

-- The same where the first digit is of a smaller class.
pub split-narrow :
    (q : Char → Bool) (ps : List (Char → Bool)) (s : String)
    → ((c : Char) → q c ≡ true → is_hex c ≡ true)
    → matches (q ∷ times 3 is_hex (is_dash ∷ ps)) s ≡ true
    → (a : String) × (b : String) × (s ≡ a ++ ("-" ++ b)) × Run 4 is_hex a × (matches ps b ≡ true)
unfolding matches
split-narrow q ps s narrow h =
    let (c, t, e, first, rest) = split-one q (times 3 is_hex (is_dash ∷ ps)) s h in
    let (a, b, e', run, tail) = split-dash 3 ps t rest in
    (
      String.◌∷◌ c a,
      b,
      e ∙ ap (λ x. String.◌∷◌ c x) e' ∙ sym (append.cons c a ("-" ++ b)),
      rw (narrow c first) run,
      tail,
    )

-- The five groups with the dashes, and without.
abbrev pub joined : String → String → String → String → String → String
joined a b c d e = a ++ ("-" ++ (b ++ ("-" ++ (c ++ ("-" ++ (d ++ ("-" ++ e)))))))

abbrev pub packed : String → String → String → String → String → String
packed a b c d e = a ++ (b ++ (c ++ (d ++ e)))

without_dashes-all : (n : ℕ) (a : String) → Run n is_hex a → without_dashes a ≡ a
unfolding without_dashes matches
without_dashes-all zero String.[] h = refl
without_dashes-all zero (String.◌∷◌ c a) h = cc
without_dashes-all (suc n) String.[] h = cc
without_dashes-all (suc n) (String.◌∷◌ c a) h =
    let no_dash : is_dash c ≡ false = ground (arith, h) in
    rw (no_dash, without_dashes-all n a (ground (arith, h))) refl

without_dashes-dash : (b : String) → without_dashes ("-" ++ b) ≡ without_dashes b
unfolding without_dashes
without_dashes-dash b = rw (append.cons (char 45 tt) "" b, append.nil b) refl

step-dash :
    (n : ℕ) (a b x : String)
    → Run n is_hex a
    → without_dashes b ≡ x
    → without_dashes (a ++ ("-" ++ b)) ≡ a ++ x
step-dash n a b x h e =
    without_dashes-run n a ("-" ++ b) h ∙ ap (λ t. a ++ t) (without_dashes-dash b ∙ e)

module _ (a b c d e : String) (ha : Run 8 is_hex a) (hb : Run 4 is_hex b) (hc : Run 4 is_hex c)
    (hd : Run 4 is_hex d) (he : Run 12 is_hex e) where
  pub without_dashes-joined : without_dashes (joined a b c d e) ≡ packed a b c d e
  without_dashes-joined = step-dash 8 a _ _ ha (
      step-dash 4 b _ _ hb
        (step-dash 4 c _ _ hc (step-dash 4 d e e hd (without_dashes-all 12 e he))))

  pub hyphenate-packed : hyphenate (packed a b c d e) ≡ joined a b c d e
  unfolding hyphenate
  hyphenate-packed =
      let p : String = packed a b c d e in
      let p1 : String = b ++ (c ++ (d ++ e)) in
      let p2 : String = c ++ (d ++ e) in
      let second = ap (take 4) (drop-run 8 is_hex a p1 ha) ∙ take-run 4 is_hex b p2 hb in
      let third =
        ap (take 4) (drop-more 8 4 is_hex a p1 ha ∙ drop-run 4 is_hex b p2 hb)
        ∙ take-run 4 is_hex c (d ++ e) hc in
      let from_d =
        drop-more 8 8 is_hex a p1 ha
        ∙ drop-more 4 4 is_hex b p2 hb
        ∙ drop-run 4 is_hex c (d ++ e) hc in
      let fourth = ap (take 4) from_d ∙ take-run 4 is_hex d e hd in
      let fifth =
        drop-more 8 12 is_hex a p1 ha
        ∙ drop-more 4 8 is_hex b p2 hb
        ∙ drop-more 4 4 is_hex c (d ++ e) hc
        ∙ drop-run 4 is_hex d e hd in
      rw (take-run 8 is_hex a p1 ha, second, third, fourth, fifth) refl

  pub packed-compact : matches (times 32 is_hex []) (packed a b c d e) ≡ true
  packed-compact = join-times 8 is_hex (times 24 is_hex []) a _ ha (
      join-times 4 is_hex (times 20 is_hex []) b _ hb (
        join-times 4 is_hex (times 16 is_hex []) c _ hc
          (join-times 4 is_hex (times 12 is_hex []) d e hd he)))
