-- ===== src/Outbox/Stuck.antt =====
-- outbox_client.py: what a flush does when the oldest open row meets an exception that `_deliver`
-- does not catch.
use auto_assist.Prelude.{
  ℕ, ◌<◌, ◌≡◌, ap, ◌∙◌, Bool, true, Option, none, List, ◌∷◌, arith, leb, if_false, take,
}
use auto_assist.Outbox.{
  OutboxEntry, Rows, Network, Reply, order_rows, open_rows, deliver, settle, attempt, attempt_all,
  limit_of, batch, flush,
}

module _ (net : Network) (m : ℕ) (max_attempts : Option ℕ) (rows : Rows) where
  deliver-broken :
      (e : OutboxEntry) → net.has_api_url ≡ true → net.reply e ≡ Reply.broken → deliver net e ≡ none
  unfolding deliver
  deliver-broken e api h = rw (api, h)

  attempt-broken :
      (n : ℕ) (e : OutboxEntry)
      → e.attempt_count < n
      → deliver net e ≡ none
      → attempt net n e rows ≡ (rows, none)
  unfolding attempt settle
  attempt-broken n e few h =
      if_false _ _ (leb n e.attempt_count) (ground (arith, few)) ∙ ap (settle net n e rows) h

  attempt_all-broken :
      (n : ℕ) (e : OutboxEntry) (entries : List OutboxEntry)
      → attempt net n e rows ≡ (rows, none)
      → attempt_all net n (e ∷ entries) rows 0 ≡ (rows, none)
  unfolding attempt_all
  attempt_all-broken n e entries h =
      let same = ap (λ (r : Rows × Option Bool). r.0) h in
      let raised = ap (λ (r : Rows × Option Bool). r.1) h in rw (raised, same, attempt_all)

  -- When the POST of the oldest open row, which has attempts left, ends in an exception that
  -- `_deliver` does not catch, the flush raises and changes nothing: neither does the row use up an
  -- attempt nor is any later row tried.
  pub flush-stuck :
      (e : OutboxEntry) (rest : Rows)
      → order_rows (open_rows rows) ≡ e ∷ rest
      → e.attempt_count < limit_of max_attempts m
      → net.has_api_url ≡ true
      → net.reply e ≡ Reply.broken
      → flush net m max_attempts rows ≡ (rows, none)
  unfolding flush
  flush-stuck e rest first few api h =
      ap (λ (es : Rows). attempt_all net (limit_of max_attempts m) (take batch es) rows 0) first
      ∙ attempt_all-broken (limit_of max_attempts m) e (take 49 rest)
          (attempt-broken (limit_of max_attempts m) e few (deliver-broken e api h))
