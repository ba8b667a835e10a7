-- ===== src/Builders/ReplyBuilder/Chunks.antt =====
-- Packets: what the parser returns does not depend on where the input was cut into packets.
use cpp_redis.Builders.ReplyBuilder.Rounds.{
  build_reply-RoundShrinks, after_reply_again, after_reply_stops, drain_lem,
}
use cpp_redis.Builders.ReplyBuilder.{
  build_reply, ReplyBuilder, builder_fed, build_buffer, true, [], some, none, with_bytes,
  build_from, ◌∷◌, false, Option, Attempt, ℕ, Result, start_reply, throw, ok, build_replies,
  receive, drain, after_reply, Received,
}
use cpp_redis.Prelude.{
  suc, ◌+◌, ◌++◌, ◌∙◌, length-append, sym, arith, Bytes, length, ap, ◌≡◌, Option-cases, inl, refl,
  append-nil, inr, ◌<◌, append_assoc, ◌≤◌, Bool-cases, zero,
}
use cpp_redis.Builders.Fed.{Fed, returned}
use cpp_redis.Builders.Builder.{Builder, depth, feed, feed_builder, reply_ready, create_builder}
use cpp_redis.Builders.Builder.Potential.{feed_builder-Shrinks, pending}
use cpp_redis.Builders.Builder.Fuel.{feed_lem, pending-none}
use cpp_redis.Builders.Builder.Resume.{Split}
use cpp_redis.Builders.Builder.Chunks.{feed_builder-Split}

append_empty : (xs ys : Bytes) → xs ++ ys ≡ [] → xs ≡ []
append_empty [] ys e = refl
append_empty (x ∷ xs) ys e = cc

returned_lem : (f : Fed Builder) → f.thrown ≡ none → f ≡ returned f.builder f.buffer
returned_lem f t = ground arith

feed-Split : (b : Builder) (buffer rest : Bytes) → Split feed b buffer rest
feed-Split b buffer rest t =
    let f = suc (depth b + length buffer + length rest) in
    let first = feed_lem f b buffer (omega arith) in
    let all = feed_lem f b (buffer ++ rest) (omega (arith, length-append buffer rest)) in
    let g = feed_builder f b buffer in
    let (ready, waits) =
      feed_builder-Split f b buffer rest (omega arith)
        (ap (λ (f : Fed Builder). f.thrown) (sym first) ∙ t) in
    rw (first, all)
      (
        ready,
        λ new.
            waits new
            ∙ sym (
                feed_lem f g.builder (g.buffer ++ rest)
                  (omega (arith, feed_builder-Shrinks f b buffer, length-append g.buffer rest))),
      )

-- A round that completed a reply leaves the rest to the next; one that waits is done over.
record RoundSplit (rest : Bytes) (r full : Attempt) : Type 0 where
  completes : r.again ≡ true → full ≡ record r { state = with_bytes r.state rest }
  waits : r.again ≡ false → full ≡ build_reply (with_bytes r.state rest)

builder_fed_returns :
    (s : ReplyBuilder) (f : Fed Builder) → (builder_fed s f).thrown ≡ none → f.thrown ≡ none
unfolding builder_fed
builder_fed_returns s f t = elim (Option-cases f.thrown) [ inl e ↦ e | inr (x, e) ↦ ground arith ]

builder_fed_ready :
    (s : ReplyBuilder) (f : Fed Builder)
    → f.thrown ≡ none
    → (builder_fed s f).again ≡ true
    → reply_ready f.builder ≡ true
unfolding builder_fed
builder_fed_ready s f t a = ground arith

builder_fed_unready :
    (s : ReplyBuilder) (f : Fed Builder)
    → f.thrown ≡ none
    → (builder_fed s f).again ≡ false
    → reply_ready f.builder ≡ false
unfolding builder_fed
builder_fed_unready s f t a = ground arith

-- The state of a parser that waits for more bytes of the reply that `b` reads.
abbrev waiting : ReplyBuilder → Builder → Bytes → ReplyBuilder
waiting s b buffer = record s { buffer = buffer; builder = some b }

builder_fed_waits :
    (s : ReplyBuilder) (f : Fed Builder)
    → f.thrown ≡ none
    → reply_ready f.builder ≡ false
    → builder_fed s f
      ≡ record { state = waiting s f.builder f.buffer; thrown = none; again = false }
unfolding builder_fed
builder_fed_waits s f t new = ground arith

builder_fed_completes :
    (s : ReplyBuilder) (f : Fed Builder) (rest : Bytes)
    → f.thrown ≡ none
    → reply_ready f.builder ≡ true
    → builder_fed (with_bytes s rest) (returned f.builder (f.buffer ++ rest))
      ≡ record (builder_fed s f) { state = with_bytes (builder_fed s f).state rest }
unfolding builder_fed
builder_fed_completes s f rest t new = ground arith

builder_fed-eq :
    (s s' : ReplyBuilder) (f : Fed Builder)
    → s.available_replies ≡ s'.available_replies
    → builder_fed s f ≡ builder_fed s' f
unfolding builder_fed
builder_fed-eq s s' f e = ground arith

-- A round on a waiting parser.
build_reply-waiting :
    (s : ReplyBuilder) (b : Builder) (buffer : Bytes)
    → reply_ready b ≡ false
    → (buffer ≡ [] → feed b [] ≡ returned b [])
    → builder_fed s (feed b buffer) ≡ build_reply (waiting s b buffer)
unfolding build_reply build_buffer build_from
build_reply-waiting s b [] new st = rw (st refl) (builder_fed_waits s (returned b []) refl new)
build_reply-waiting s b (x ∷ buffer) new st =
    builder_fed-eq s (waiting s b (x ∷ buffer)) (feed b (x ∷ buffer)) refl

stalled :
    (b : Builder) (buffer rest : Bytes)
    → (feed b buffer).thrown ≡ none
    → reply_ready (feed b buffer).builder ≡ false
    → (feed b buffer).buffer ++ rest ≡ []
    → feed (feed b buffer).builder [] ≡ returned (feed b buffer).builder []
stalled b buffer rest t new e =
    let g = feed b buffer in
    let again = (feed-Split b buffer [] t).1 new in
    let empty = append_empty g.buffer rest e in
    cc (again, empty, append-nil buffer, append-nil g.buffer, returned_lem g t)

fed-RoundSplit :
    (s : ReplyBuilder) (b : Builder) (buffer rest : Bytes)
    → (builder_fed s (feed b buffer)).thrown ≡ none
    → RoundSplit rest
        (builder_fed s (feed b buffer))
        (builder_fed (with_bytes s rest) (feed b (buffer ++ rest)))
fed-RoundSplit s b buffer rest t =
    let f = feed b buffer in
    let t' = builder_fed_returns s f t in
    record {
      completes = λ a.
          let ready = builder_fed_ready s f t' a in
          rw ((feed-Split b buffer rest t').0 ready) (builder_fed_completes s f rest t' ready);
      waits = λ a.
          let new = builder_fed_unready s f t' a in
          rw ((feed-Split b buffer rest t').1 new, builder_fed_waits s f t' new)
            (builder_fed-eq (with_bytes s rest) s (feed f.builder (f.buffer ++ rest)) refl
              ∙ build_reply-waiting s f.builder (f.buffer ++ rest) new
                  (stalled b buffer rest t' new));
    }

build_from-RoundSplit :
    (s : ReplyBuilder) (b : Option Builder) (x : ℕ) (buffer rest : Bytes)
    → (build_from s b x buffer).thrown ≡ none
    → RoundSplit rest
        (build_from s b x buffer)
        (build_from (with_bytes s rest) b x (buffer ++ rest))
unfolding build_from
build_from-RoundSplit s (some b) x buffer rest t = fed-RoundSplit s b (x ∷ buffer) rest t
build_from-RoundSplit s none x buffer rest t = start (create_builder x) t
  where
    start :
        (r : Result Builder)
        → (start_reply s buffer r).thrown ≡ none
        → RoundSplit rest
            (start_reply s buffer r)
            (start_reply (with_bytes s rest) (buffer ++ rest) r)
    start (throw e) t = unfold start_reply in cc
    start (ok b) t = unfold start_reply in fed-RoundSplit s b buffer rest t

build_reply-RoundSplit :
    (s : ReplyBuilder) (rest : Bytes)
    → (build_reply s).thrown ≡ none
    → RoundSplit rest (build_reply s) (build_reply (with_bytes s rest))
unfolding build_reply
build_reply-RoundSplit s rest t = go s.buffer refl t
  where
    go :
        (buffer : Bytes)
        → s.buffer ≡ buffer
        → (build_buffer s buffer).thrown ≡ none
        → RoundSplit rest
            (build_buffer s buffer)
            (build_buffer (with_bytes s rest) (buffer ++ rest))
    go [] e t =
        unfold build_buffer in
        record {
          completes = λ a. cc;
          waits = λ a. ap (λ (xs : Bytes). build_buffer (with_bytes s rest) (xs ++ rest)) (sym e);
        }
    go (x ∷ buffer) e t = unfold build_buffer in build_from-RoundSplit s s.builder x buffer rest t

build_replies_split :
    (n N : ℕ) (s : ReplyBuilder) (rest : Bytes)
    → length s.buffer + pending s.builder < n
    → length s.buffer + length rest + pending s.builder < N
    → (build_replies n s).thrown ≡ none
    → build_replies N (with_bytes s rest) ≡ drain (with_bytes (build_replies n s).state rest)
unfolding build_replies
build_replies_split zero N s rest h h' t = absurd (omega arith)
build_replies_split (suc n) zero s rest h h' t = absurd (omega arith)
build_replies_split (suc n) (suc N) s rest h h' t =
    let r = build_reply s in
    let sh = build_reply-RoundShrinks s in
    elim (Bool-cases r.again) [
      | inl a ↦
          let e = after_reply_again (build_replies n) r a in
          let sp = build_reply-RoundSplit s rest (sh.returns a) in
          ap (after_reply (build_replies N)) (sp.completes a)
          ∙ after_reply_again (build_replies N) (record r { state = with_bytes r.state rest }) a
          ∙ build_replies_split n N r.state rest
              (omega (arith, sh.consumed a, pending-none r.state.builder (sh.emptied a)))
              (omega (arith, sh.consumed a, pending-none r.state.builder (sh.emptied a)))
              (ap (λ (q : Received). q.thrown) (sym e) ∙ t)
          ∙ ap (λ (q : Received). drain (with_bytes q.state rest)) (sym e)
      | inr a ↦
          let e = after_reply_stops (build_replies n) r a in
          let returns = ap (λ (q : Received). q.thrown) (sym e) ∙ t in
          let sp = build_reply-RoundSplit s rest returns in
          ap (after_reply (build_replies N)) (sp.waits a)
          ∙ drain_lem (suc N) (with_bytes r.state rest)
              (omega (arith, sh.kept returns, length-append r.state.buffer rest))
          ∙ ap (λ (q : Received). drain (with_bytes q.state rest)) (sym e)
    ]

pending-le : (c : Option Builder) → pending c ≤ 1
pending-le none = omega arith
pending-le (some c) = omega arith

drain_split :
    (s : ReplyBuilder) (rest : Bytes)
    → (drain s).thrown ≡ none
    → drain (with_bytes s rest) ≡ drain (with_bytes (drain s).state rest)
unfolding drain
drain_split s rest t =
    build_replies_split (suc (suc (length s.buffer))) (suc (suc (length (s.buffer ++ rest)))) s rest
      (omega (arith, pending-le s.builder))
      (omega (arith, pending-le s.builder, length-append s.buffer rest)) t

-- Two packets that arrive one after the other leave the parser in the state, with the replies and
-- with the exception, if any, of one packet that holds the bytes of both. The first must not throw.
pub receive-append :
    (s : ReplyBuilder) (first second : Bytes)
    → (receive s first).thrown ≡ none
    → receive (receive s first).state second ≡ receive s (first ++ second)
unfolding receive
receive-append s first second t = sym (
    ap (λ (xs : Bytes). drain (record s { buffer = xs })) (sym (append_assoc s.buffer first second))
    ∙ drain_split (with_bytes s first) second t)
