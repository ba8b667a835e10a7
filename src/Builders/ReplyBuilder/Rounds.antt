-- ===== src/Builders/ReplyBuilder/Rounds.antt =====
-- The rounds of `build_reply`: what each leaves, and that the rounds given are enough.
use cpp_redis.Prelude.{
  ℕ, zero, suc, ◌+◌, ◌≤◌, ◌<◌, ◌∙◌, true, false, Option, none, some, [], ◌∷◌, ◌≡◌, ◌≢◌, refl, sym,
  arith, Bytes, length, Bool-cases, inl, inr, ap,
}
use cpp_redis.Error.{Exception, Result, ok, throw, out_of_fuel}
use cpp_redis.Builders.Fed.{Fed}
use cpp_redis.Builders.Builder.{Builder, create_builder, depth, feed}
use cpp_redis.Builders.Builder.Potential.{pending, feed_builder-Shrinks}
use cpp_redis.Builders.Builder.Ends.{Ends, feed_builder-Ends, create_builder_throws}
use cpp_redis.Builders.ReplyBuilder.{
  ReplyBuilder, Attempt, Received, builder_fed, start_reply, build_from, build_buffer, build_reply,
  after_reply, build_replies, drain, receive, with_bytes,
}

pub feed-shrinks : (b : Builder) (buffer : Bytes) → length (feed b buffer).buffer ≤ length buffer
unfolding feed
feed-shrinks b buffer = (feed_builder-Shrinks (suc (depth b + length buffer)) b buffer).0

-- What a round leaves.
pub record RoundShrinks (s : ReplyBuilder) (r : Attempt) : Type 0 where
  pub emptied : r.again ≡ true → r.state.builder ≡ none
  pub consumed : r.again ≡ true → length r.state.buffer + 1 ≤ length s.buffer + pending s.builder
  pub returns : r.again ≡ true → r.thrown ≡ none
  pub kept :
      r.thrown ≡ none
      → length r.state.buffer + pending r.state.builder ≤ length s.buffer + pending s.builder
  pub ends : Ends r.thrown

builder_fed-RoundShrinks :
    (s : ReplyBuilder) (f : Fed Builder)
    → length f.buffer + 1 ≤ length s.buffer + pending s.builder
    → Ends f.thrown
    → RoundShrinks s (builder_fed s f)
unfolding builder_fed
builder_fed-RoundShrinks s f h e = record {
  emptied = λ a. ground arith;
  consumed = λ a. ground arith;
  returns = λ a. ground arith;
  kept = λ t. ground arith;
  ends = ground arith;
}

feed-Ends : (b : Builder) (buffer : Bytes) → Ends (feed b buffer).thrown
unfolding feed
feed-Ends b buffer = feed_builder-Ends (suc (depth b + length buffer)) b buffer (omega arith)

start_reply-RoundShrinks :
    (s : ReplyBuilder) (rest : Bytes) (r : Result Builder)
    → s.builder ≡ none
    → length rest + 1 ≤ length s.buffer
    → ((e : Exception) → r ≡ throw e → e ≢ out_of_fuel)
    → RoundShrinks s (start_reply s rest r)
unfolding start_reply
start_reply-RoundShrinks s rest (throw e) n h t = record {
  emptied = λ a. cc;
  consumed = λ a. cc;
  returns = λ a. cc;
  kept = λ t. cc;
  ends = let ne = t e refl in ground arith;
}
start_reply-RoundShrinks s rest (ok b) n h t =
    builder_fed-RoundShrinks s (feed b rest) (omega (arith, feed-shrinks b rest)) (feed-Ends b rest)

build_from-RoundShrinks :
    (s : ReplyBuilder) (b : Option Builder) (x : ℕ) (rest : Bytes)
    → s.builder ≡ b
    → s.buffer ≡ x ∷ rest
    → RoundShrinks s (build_from s b x rest)
unfolding build_from
build_from-RoundShrinks s none x rest n e =
    start_reply-RoundShrinks s rest (create_builder x) n (omega (arith, ap length e))
      (create_builder_throws x)
build_from-RoundShrinks s (some b) x rest n e =
    builder_fed-RoundShrinks s (feed b (x ∷ rest))
      (omega (arith, ap length e, feed-shrinks b (x ∷ rest), ap pending n)) (feed-Ends b (x ∷ rest))

pub build_reply-RoundShrinks : (s : ReplyBuilder) → RoundShrinks s (build_reply s)
unfolding build_reply
build_reply-RoundShrinks s = go s.buffer refl
  where
    go : (buffer : Bytes) → s.buffer ≡ buffer → RoundShrinks s (build_buffer s buffer)
    go [] e =
        unfold build_buffer in
        record {
          emptied = λ a. cc;
          consumed = λ a. cc;
          returns = λ a. cc;
          kept = λ t. omega arith;
          ends = λ q. cc;
        }
    go (x ∷ rest) e = unfold build_buffer in build_from-RoundShrinks s s.builder x rest refl e

pub after_reply_again :
    (next : ReplyBuilder → Received) (r : Attempt)
    → r.again ≡ true
    → after_reply next r ≡ next r.state
unfolding after_reply
after_reply_again next r a = ground arith

pub after_reply_stops :
    (next : ReplyBuilder → Received) (r : Attempt)
    → r.again ≡ false
    → after_reply next r ≡ record { state = r.state; thrown = r.thrown }
unfolding after_reply
after_reply_stops next r a = ground arith

pub pending-none : (c : Option Builder) → c ≡ none → pending c ≡ 0
pending-none none e = refl
pending-none (some c) e = cc

-- More rounds than enough change nothing.
pub build_replies-Agree :
    (n n' : ℕ) (s : ReplyBuilder)
    → length s.buffer + pending s.builder < n
    → length s.buffer + pending s.builder < n'
    → build_replies n s ≡ build_replies n' s
unfolding build_replies
build_replies-Agree zero n' s h h' = absurd (omega arith)
build_replies-Agree (suc n) zero s h h' = absurd (omega arith)
build_replies-Agree (suc n) (suc n') s h h' =
    let r = build_reply s in
    let sh = build_reply-RoundShrinks s in
    elim (Bool-cases r.again) [
      | inl a ↦
          after_reply_again (build_replies n) r a
          ∙ build_replies-Agree n n' r.state
              (omega (arith, sh.consumed a, pending-none r.state.builder (sh.emptied a)))
              (omega (arith, sh.consumed a, pending-none r.state.builder (sh.emptied a)))
          ∙ sym (after_reply_again (build_replies n') r a)
      | inr a ↦
          after_reply_stops (build_replies n) r a ∙ sym (after_reply_stops (build_replies n') r a)
    ]

build_replies-Ends :
    (n : ℕ) (s : ReplyBuilder)
    → length s.buffer + pending s.builder < n
    → Ends (build_replies n s).thrown
unfolding build_replies
build_replies-Ends zero s h = absurd (omega arith)
build_replies-Ends (suc n) s h =
    let r = build_reply s in
    let sh = build_reply-RoundShrinks s in
    elim (Bool-cases r.again) [
      | inl a ↦ rw (after_reply_again (build_replies n) r a) (
          build_replies-Ends n r.state
            (omega (arith, sh.consumed a, pending-none r.state.builder (sh.emptied a))))
      | inr a ↦ rw (after_reply_stops (build_replies n) r a) sh.ends
    ]

pending-le : (c : Option Builder) → pending c ≤ 1
pending-le none = omega arith
pending-le (some c) = omega arith

-- The rounds of the loop are enough.
pub drain_lem :
    (n : ℕ) (s : ReplyBuilder)
    → length s.buffer + pending s.builder < n
    → build_replies n s ≡ drain s
unfolding drain
drain_lem n s h =
    build_replies-Agree n (suc (suc (length s.buffer))) s h (omega (arith, pending-le s.builder))

-- Whatever bytes arrive, in whatever state, the loops that read them end: the rounds and the levels
-- of nesting that the model gives them are never used up.
pub receive-Ends : (s : ReplyBuilder) (bytes : Bytes) → (receive s bytes).thrown ≢ some out_of_fuel
unfolding receive drain
receive-Ends s bytes =
    let s' = with_bytes s bytes in
    build_replies-Ends (suc (suc (length s'.buffer))) s' (omega (arith, pending-le s.builder))
