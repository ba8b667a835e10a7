-- ===== src/Protocol.antt =====
-- The redis protocol, as an independent description of what the parsers read and the connection
-- writes: the values that a server can send, and their bytes.
use cpp_redis.Prelude.{
  ℕ, suc, ◌+◌, ◌≤◌, [], ◌∷◌, ◌++◌, Bytes, codes, crlf, NoCr, ℤ, nat_abs, int_to_string, to_string,
  length, List, ◌≡◌, append_assoc, refl,
}
use cpp_redis.Reply.{
  Reply, Rows, StringType, nil, cons, reply_null, reply_string, reply_integer, reply_array,
}
use cpp_redis.Builders.IntegerBuilder.{max_int64}
use cpp_redis.Builders.BulkStringBuilder.{max_int}

mutual
  pub data Value : Type 0 where
    simple_string : Bytes → Value
    error : Bytes → Value
    integer : ℤ → Value
    bulk_string : Bytes → Value
    null_string : Value
    array : Values → Value
    null_array : Value

  pub data Values : Type 0 where
    no_items : Values
    item : Value → Values → Values

-- The byte that says the kind of a value.
abbrev pub tag : Value → ℕ
tag (simple_string s) = b'+'
tag (error s) = b'-'
tag (integer n) = b':'
tag (bulk_string s) = b'$'
tag null_string = b'$'
tag (array vs) = b'*'
tag null_array = b'*'

abbrev pub count : Values → ℕ
count no_items = 0
count (item v vs) = suc (count vs)

-- The bytes of a value behind its tag, and of values, with the bytes `rest` behind them.
unfoldable mutual
  pub body : Value → Bytes → Bytes
  body (simple_string s) rest = s ++ (crlf ++ rest)
  body (error s) rest = s ++ (crlf ++ rest)
  body (integer n) rest = int_to_string n ++ (crlf ++ rest)
  body (bulk_string s) rest = to_string (length s) ++ (crlf ++ (s ++ (crlf ++ rest)))
  body null_string rest = codes "-1" ++ (crlf ++ rest)
  body (array vs) rest = to_string (count vs) ++ (crlf ++ bodies vs rest)
  body null_array rest = codes "-1" ++ (crlf ++ rest)

  pub bodies : Values → Bytes → Bytes
  bodies no_items rest = rest
  bodies (item v vs) rest = tag v ∷ body v (bodies vs rest)

-- The bytes of values in a row.
unfoldable pub encode : Values → Bytes
unfolding body
encode vs = bodies vs []

-- The reply that stands for a value.
unfoldable mutual
  pub reply_of : Value → Reply
  reply_of (simple_string s) = reply_string s StringType.simple_string
  reply_of (error s) = reply_string s StringType.error
  reply_of (integer n) = reply_integer n
  reply_of (bulk_string s) = reply_string s StringType.bulk_string
  reply_of null_string = reply_null
  reply_of (array vs) = reply_array (rows_of vs)
  reply_of null_array = reply_null

  pub rows_of : Values → Rows
  rows_of no_items = nil
  rows_of (item v vs) = cons (reply_of v) (rows_of vs)

-- What the members of the builders can hold: a line has no "\r", an integer fits into `int64_t` with
-- its absolute value, the size of a string with its end sequence into `int`.
abbrev mutual
  pub IsValid : Value → Type 0
  IsValid (simple_string s) = NoCr s
  IsValid (error s) = NoCr s
  IsValid (integer n) = nat_abs n ≤ max_int64
  IsValid (bulk_string s) = length s + 2 ≤ max_int
  IsValid null_string = Unit
  IsValid (array vs) = (count vs ≤ max_int64) × AreValid vs
  IsValid null_array = Unit

  pub AreValid : Values → Type 0
  AreValid no_items = Unit
  AreValid (item v vs) = IsValid v × AreValid vs

unfoldable pub replies_of : Values → List Reply
replies_of no_items = []
replies_of (item v vs) = reply_of v ∷ replies_of vs

mutual
  unfolding body

  pub body-append : (v : Value) (xs rest : Bytes) → body v (xs ++ rest) ≡ body v xs ++ rest
  body-append (simple_string s) xs rest = simp append_assoc
  body-append (error s) xs rest = simp append_assoc
  body-append (integer n) xs rest = simp append_assoc
  body-append (bulk_string s) xs rest = simp append_assoc
  body-append null_string xs rest = refl
  body-append (array vs) xs rest = simp (bodies-append vs xs rest, append_assoc)
  body-append null_array xs rest = refl

  pub bodies-append :
      (vs : Values) (xs rest : Bytes) → bodies vs (xs ++ rest) ≡ bodies vs xs ++ rest
  bodies-append no_items xs rest = refl
  bodies-append (item v vs) xs rest =
      simp (bodies-append vs xs rest, body-append v (bodies vs xs) rest)
