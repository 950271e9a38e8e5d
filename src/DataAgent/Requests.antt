-- ===== src/DataAgent/Requests.antt =====
-- How often the client of the data agent asks.
use baa_system.Base.{
  ℕ, ◌+◌, ◌≤◌, ◌≡◌, List, [], ◌∷◌, String, length, leb, ltb, ◌||◌, arith, by_test,
}
use baa_system.Outcome.{Outcome, Run}
use baa_system.DataAgent.Client.{
  Http, Reply, Fields, response, request_error, ClientFault, is_success, after_reply,
  client_attempts, client_query, backoff,
}

module _ {S R : Type 0} (http : Http S R) (status_text : ℕ → String) (base_url : String)
    (requests : S → ℕ) (post_counts : (s : S) → requests (http.post s).1 ≡ requests s + 1)
    (sleep_keeps : (milliseconds : ℕ) (s : S)
      → requests (http.sleep milliseconds s) ≡ requests s) where
  -- A run that adds at most so many requests.
  abbrev Adds : ℕ → S → Outcome ClientFault (Fields R) × S → Type 0
  Adds n s end = (requests s ≤ requests end.1) × (requests end.1 ≤ requests s + n)

  paused :
      (n milliseconds : ℕ) (again : Run ClientFault S (Fields R))
      → ((s : S) → Adds n s (again s))
      → (s : S) → Adds n s (again (http.sleep milliseconds s))
  paused n milliseconds again h s =
      let (low, high) = h (http.sleep milliseconds s) in
      (
        omega (arith, low, sleep_keeps milliseconds s),
        omega (arith, high, sleep_keeps milliseconds s),
      )

  after_reply-Adds :
      (n attempt : ℕ) (again : Run ClientFault S (Fields R))
      → ((s : S) → Adds n s (again s))
      → (reply : Reply R) (s : S)
      → Adds n s (after_reply http status_text base_url attempt again reply s)
  unfolding after_reply
  after_reply-Adds n attempt again h request_error s =
      by_test (Adds n s) (leb 2 attempt) _ _ (λ _. (omega arith, omega arith))
        λ _. paused n (backoff attempt) again h s
  after_reply-Adds n attempt again h (response status payload) s =
      by_test (Adds n s) (is_success status) _ _ (λ _. (omega arith, omega arith))
        λ _.
          by_test (Adds n s) (ltb status 500 || leb 2 attempt) _ _ (λ _. (omega arith, omega arith))
            λ _. paused n (backoff attempt) again h s

  client_attempts-Adds :
      (attempts : List ℕ) (s : S)
      → Adds (length attempts) s (client_attempts http status_text base_url attempts s)
  unfolding client_attempts
  client_attempts-Adds [] s = (omega arith, omega arith)
  client_attempts-Adds (attempt ∷ rest) s =
      let (low, high) =
        after_reply-Adds (length rest) attempt (client_attempts http status_text base_url rest)
          (client_attempts-Adds rest) (http.post s).0 (http.post s).1 in
      (omega (arith, low, post_counts s), omega (arith, high, post_counts s))

  -- Where each post is counted as a request and a pause as none, the client asks once, twice or
  -- three times, whatever the replies are.
  pub client_query-requests :
      (s : S)
      → (requests s + 1 ≤ requests (client_query http status_text base_url s).1)
        × (requests (client_query http status_text base_url s).1 ≤ requests s + 3)
  unfolding client_query client_attempts
  client_query-requests s =
      let (low, high) =
        after_reply-Adds 2 0 (client_attempts http status_text base_url (1 ∷ 2 ∷ []))
          (client_attempts-Adds (1 ∷ 2 ∷ [])) (http.post s).0 (http.post s).1 in
      (omega (arith, low, post_counts s), omega (arith, high, post_counts s))
