-- ===== src/Task/Reports.antt =====
-- How often a terminal callback is sent.
use app_module_sdk.Base.{
  ℕ, zero, suc, ◌+◌, ◌≤◌, ◌≡◌, refl, ap, ◌∙◌, ◌≢◌, inl, inr, Option, none, some, List, ◌∷◌, arith,
  eq-false_of_ne, Bool-cases,
}
use app_module_sdk.Task.{Error, Result, ok, err}
use app_module_sdk.Task.Broker.{
  Request, Net, Codec, World, Out, discard, post, waited, after_post, terminal_rounds,
  terminal_post, retriable,
}

-- n copies of an element in front of a list.
abbrev pub copies : {A : Type 0} → ℕ → A → List A → List A
copies zero x xs = xs
copies (suc n) x xs = x ∷ copies n x xs

pub copies_inside :
    {A : Type 0} (n : ℕ) (x : A) (xs : List A) → copies n x (x ∷ xs) ≡ x ∷ copies n x xs
copies_inside zero x xs = refl
copies_inside (suc n) x xs = rw (copies_inside n x xs)

module _ {S : Type 0} (net : Net S) (codec : Codec) where
  -- A request with a token is sent once by `post`.
  pub post-sent :
      {A : Type 0} (out : Out A) (req : Request) (w : World S)
      → req.token ≢ ""
      → (post codec out net req w).1.sent ≡ req ∷ w.sent
  unfolding post
  post-sent out req w h = rw (eq-false_of_ne req.token "" h)

  waited-sent :
      (again : World S → Result (Unit {0}) × World S) (left : ℕ) (req : Request) (w : World S)
      (o : Option Error × S)
      → ((s : S)
          → (n : ℕ) × (n ≤ left)
            × ((again (record w { outside = s })).1.sent ≡ copies n req w.sent))
      → (n : ℕ) × (n ≤ left) × ((waited net codec again w o).1.sent ≡ copies n req w.sent)
  unfolding waited
  waited-sent again left req w (some cause, s) h = (0, omega arith, refl)
  waited-sent again left req w (none, s) h = h s

  after_post-sent :
      (again : World S → Result (Unit {0}) × World S) (left attempt status : ℕ) (req : Request)
      (r : Result (Unit {0})) (w : World S)
      → ((s : S)
          → (n : ℕ) × (n ≤ left)
            × ((again (record w { outside = s })).1.sent ≡ copies n req w.sent))
      → (n : ℕ) × (n ≤ left)
        × ((after_post net codec again attempt status r w).1.sent ≡ copies n req w.sent)
  unfolding after_post
  after_post-sent again left attempt status req (ok _) w h = (0, omega arith, refl)
  after_post-sent again left attempt status req (err e) w h = elim (Bool-cases (retriable status)) [
    | inr f ↦ rw f (0, omega arith, refl)
    | inl f ↦ rw f (waited-sent again left req w _ h)
  ]

  -- `terminal_rounds` sends its request once at least, and at most once for each round.
  pub terminal_rounds-sent :
      (left attempt : ℕ) (req : Request) (w : World S)
      → req.token ≢ ""
      → (n : ℕ) × (1 ≤ n)
        × (n ≤ left + 1)
        × ((terminal_rounds net codec left attempt req w).1.sent ≡ copies n req w.sent)
  unfolding terminal_rounds
  terminal_rounds-sent zero attempt req w h =
      (1, omega arith, omega arith, post-sent (discard tt) req w h)
  terminal_rounds-sent (suc left) attempt req w h =
      let (p, w') = post codec (discard tt) net req w in
      let (n, small, e) =
        after_post-sent (terminal_rounds net codec left (attempt + 1) req) (left + 1) attempt
          p.status req p.result w'
          λ s.
            let (k, _, small, e) =
              terminal_rounds-sent left (attempt + 1) req (record w' { outside = s }) h in
            (k, small, e) in
      (
        suc n,
        omega arith,
        omega (arith, small),
        e ∙ ap (copies n req) (post-sent (discard tt) req w h) ∙ copies_inside n req w.sent,
      )

  -- A terminal callback with a token is sent one to three times, unchanged.
  pub terminal_post-sent :
      (req : Request) (w : World S)
      → req.token ≢ ""
      → (n : ℕ) × (1 ≤ n) × (n ≤ 3) × ((terminal_post net codec req w).1.sent ≡ copies n req w.sent)
  unfolding terminal_post
  terminal_post-sent req w h = terminal_rounds-sent 2 0 req w h
