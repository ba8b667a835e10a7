-- ===== src/Builders/Builder/BulkStrings.antt =====
-- How `bulk_string_builder` reads a value (sources/builders/bulk_string_builder.cpp).
use cpp_redis.Prelude.{
  ℕ, ◌+◌, ◌≤◌, ◌++◌, ◌∙◌, true, some, [], ◌∷◌, ◌≡◌, refl, arith, Bytes, codes, length,
  length-append, ap, take-length, crlf, cr, lf, pos, negsuc, int_to_string, to_string, get_elem?,
}
use cpp_redis.Reply.{Reply, reply_null}
use cpp_redis.Builders.Fed.{Fed, returned}
use cpp_redis.Builders.IntegerBuilder.{
  IntegerBuilder, integer_builder, get_integer, feed_integer, max_int64,
}
use cpp_redis.Builders.BulkStringBuilder.{
  BulkStringBuilder, bulk_string_builder, max_int, to_int, to_size, build_reply, size_read,
  size_fed, size_known, fetch_str, take_str, feed_bulk_string,
}
use cpp_redis.Builders.Builder.{Builder, reply_ready, get_reply}
use cpp_redis.Builders.Builder.Lines.{
  drop_line, integer_read, get_integer-integer_read, feed_integer_line,
}

-- A builder that read the reply `r` and left `rest`.
abbrev pub Reads : Fed Builder → Bytes → Reply → Type 0
Reads f rest r = (b : Builder) × (f ≡ returned b rest) × (reply_ready b ≡ true) × (get_reply b ≡ r)

get_elem?-length : (s rest : Bytes) (c : ℕ) → get_elem? (s ++ (c ∷ rest)) (length s) ≡ some c
get_elem?-length [] rest c = refl
get_elem?-length (x ∷ s) rest c = get_elem?-length s rest c

get_elem?-length_suc :
    (s rest : Bytes) (c d : ℕ) → get_elem? (s ++ (c ∷ d ∷ rest)) (length s + 1) ≡ some d
get_elem?-length_suc [] rest c d = refl
get_elem?-length_suc (x ∷ s) rest c d = ground (arith, get_elem?-length_suc s rest c d)

-- The builder of strings behind the size line.
abbrev sized : ℕ → BulkStringBuilder
sized n = record bulk_string_builder { int_builder = integer_read (pos n); str_size = pos n }

to_int_pos : (n : ℕ) → n ≤ max_int → to_int (pos n) ≡ pos n
unfolding to_int
to_int_pos n h = ground arith

size_read_pos :
    (n : ℕ)
    → n ≤ max_int
    → size_read (record bulk_string_builder { int_builder = integer_read (pos n) }) ≡ sized n
unfolding size_read
size_read_pos n h = rw (get_integer-integer_read (pos n), to_int_pos n h)

take_str_lem :
    (s rest : Bytes)
    → length s + 2 ≤ max_int
    → take_str (sized (length s)) (s ++ (crlf ++ rest)) (pos (length s))
      ≡ returned (build_reply (record (sized (length s)) { str = s })) rest
unfolding take_str
take_str_lem s rest h = ground (
  arith,
  get_elem?-length s (lf ∷ rest) cr,
  get_elem?-length_suc s rest cr lf,
  take-length s (crlf ++ rest),
  drop_line s rest,
)

fetch_str_lem :
    (s rest : Bytes)
    → length s + 2 ≤ max_int
    → fetch_str (sized (length s)) (s ++ (crlf ++ rest))
      ≡ returned (build_reply (record (sized (length s)) { str = s })) rest
unfolding fetch_str to_size
fetch_str_lem s rest h = ground (arith, take_str_lem s rest h, length-append s (crlf ++ rest))

-- The line of a size.
pub feed_size :
    (n : ℕ) (rest : Bytes)
    → n ≤ max_int64
    → feed_integer integer_builder (to_string n ++ (crlf ++ rest))
      ≡ returned (integer_read (pos n)) rest
unfolding int_to_string
feed_size n rest h = feed_integer_line (pos n) rest h

pub feed_minus_one :
    (rest : Bytes)
    → feed_integer integer_builder (codes "-1" ++ (crlf ++ rest))
      ≡ returned (integer_read (negsuc 0)) rest
unfolding int_to_string to_string
feed_minus_one rest = feed_integer_line (negsuc 0) rest (omega arith)

feed_bulk_string_sized :
    (buffer : Bytes)
    → feed_bulk_string bulk_string_builder buffer
      ≡ size_known (size_fed bulk_string_builder (feed_integer integer_builder buffer))
unfolding feed_bulk_string
feed_bulk_string_sized buffer = refl

pub feed_bulk_string_value :
    (s rest : Bytes)
    → length s + 2 ≤ max_int
    → feed_bulk_string bulk_string_builder (to_string (length s) ++ (crlf ++ (s ++ (crlf ++ rest))))
      ≡ returned (build_reply (record (sized (length s)) { str = s })) rest
unfolding size_fed size_known
feed_bulk_string_value s rest h =
    rw (feed_bulk_string_sized, feed_size (length s) (s ++ (crlf ++ rest)) (omega arith))
      (rw (size_read_pos (length s) (omega arith)) (fetch_str_lem s rest h))

pub feed_bulk_string_null :
    (rest : Bytes)
    → (b : BulkStringBuilder) × (feed_bulk_string bulk_string_builder (codes "-1" ++ (crlf ++ rest))
        ≡ returned b rest)
      × (b.reply_ready ≡ true)
      × (b.reply ≡ reply_null)
unfolding size_fed size_known size_read to_int build_reply get_integer
feed_bulk_string_null rest = (
  _,
  feed_bulk_string_sized _
      ∙ ap (λ (f : Fed IntegerBuilder). size_known (size_fed bulk_string_builder f))
          (feed_minus_one rest),
  refl,
  refl,
)
