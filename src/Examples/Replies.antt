-- ===== src/Examples/Replies.antt =====
-- The theorems on replies at concrete inputs.
use cpp_redis.Prelude.{◌≡◌, codes, pos, true, ◌≢◌, ◌++◌}
use cpp_redis.Error.{ok, throw, undefined, redis_error}
use cpp_redis.Reply.{
  Reply, StringType, as_integer, as_string, as_array, error_message, set_string, set_integer,
  push_row, reply_null, reply_integer, reply_string, reply_array, print, is_array, m_rows, m_intval,
  cons, nil,
}
use cpp_redis.Reply.Access.{
  by_null, then_integer, Built-as_integer, as_string-set_string, print-push_row,
}

abbrev two_rows : Reply
two_rows =
    reply_array
      (cons (reply_integer (pos 4)) (cons (reply_string (codes "ab") StringType.bulk_string) nil))

Built-as_integer_example : as_integer (set_integer reply_null (pos 7)) ≢ throw undefined
Built-as_integer_example =
    Built-as_integer (set_integer reply_null (pos 7)) (then_integer by_null (pos 7))

as_string-set_string_example :
    (as_string (set_string two_rows (codes "no") StringType.error) ≡ ok (codes "no"))
    × (as_array (set_string two_rows (codes "no") StringType.error)
        ≡ throw (redis_error "Reply is not an array"))
    × (as_integer (set_string two_rows (codes "no") StringType.error)
        ≡ throw (redis_error "Reply is not an integer"))
    × (error_message (set_string two_rows (codes "no") StringType.error) ≡ ok (codes "no"))
    × (m_rows (set_string two_rows (codes "no") StringType.error) ≡ m_rows two_rows)
    × (m_intval (set_string two_rows (codes "no") StringType.error) ≡ m_intval two_rows)
as_string-set_string_example = as_string-set_string two_rows (codes "no") StringType.error

print-push_row_example :
    (is_array (push_row two_rows (reply_integer (pos 5))) ≡ true)
    × (is_array two_rows ≡ true
        → print (push_row two_rows (reply_integer (pos 5)))
          ≡ print two_rows ++ print (reply_integer (pos 5)))
print-push_row_example = print-push_row two_rows (reply_integer (pos 5))
