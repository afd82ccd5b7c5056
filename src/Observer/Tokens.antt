-- ===== src/Observer/Tokens.antt =====
-- The subscriptions by their tokens.
use gee_h.Prelude.{
  ℕ, suc, ◌≡◌, refl, ap, ◌∙◌, List, [], ◌∷◌, ◌++◌, Option, none, some, if◌then◌else◌, ◌==◌, arith,
}
use gee_h.Observer.{Subscription, Observer, subscribe, unsubscribe, drop_token}
use gee_h.Observer.Histories.{Watched}
use gee_h.Observer.Kept.{Issued, Lacks, Distinct, Distinct-subscribe, Watched-IsKept}

-- The subscriber with the token `t`.
unfoldable pub subscriber_of : ℕ → List Subscription → Option ℕ
subscriber_of t [] = none
subscriber_of t (s ∷ ss) = if s.token == t then some s.subscriber else subscriber_of t ss

lacking : (t : ℕ) (ss : List Subscription) → Lacks t ss → subscriber_of t ss ≡ none
unfolding subscriber_of
lacking t [] l = refl
lacking t (s ∷ ss) l = ground (arith, lacking t ss)

subscriber_of-drop_token :
    (t u : ℕ) (ss : List Subscription)
    → Distinct ss
    → subscriber_of u (drop_token t ss) ≡ (if u == t then none else subscriber_of u ss)
unfolding subscriber_of drop_token
subscriber_of-drop_token t u [] d = ground arith
subscriber_of-drop_token t u (s ∷ ss) d =
    ground (arith, subscriber_of-drop_token t u ss, lacking s.token ss)

subscriber_of-append :
    (n x u : ℕ) (ss : List Subscription)
    → Issued n ss
    → subscriber_of u (ss ++ record { token = suc n; subscriber = x } ∷ [])
      ≡ (if u == suc n then some x else subscriber_of u ss)
unfolding subscriber_of
subscriber_of-append n x u [] h = ground arith
subscriber_of-append n x u (s ∷ ss) h = ground (arith, subscriber_of-append n x u ss)

-- In every history `subscribe()` adds its subscriber under the token that it returns, and then
-- `unsubscribe()` removes the subscription with its token, if there is one, and no other: each other
-- token still has the subscriber that it had.
pub unsubscribe-subscribe :
    (o : Observer) (subscriber removed other : ℕ)
    → Watched o
    → let (d, token) = subscribe subscriber o in
      subscriber_of other (unsubscribe removed d).subscriptions ≡ (
        if other == removed
        then none
        else if other == token
        then some subscriber
        else subscriber_of other o.subscriptions)
unfolding subscribe unsubscribe
unsubscribe-subscribe o subscriber removed other w =
    let v = Watched-IsKept w in
    subscriber_of-drop_token removed other _
      (Distinct-subscribe o.token_gen subscriber o.subscriptions v.issued v.distinct)
    ∙ ap (λ s. if other == removed then none else s)
        (subscriber_of-append o.token_gen subscriber other o.subscriptions v.issued)
