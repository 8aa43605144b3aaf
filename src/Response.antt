-- ===== src/Response.antt =====
-- response/src/lib.rs: the replies that the server writes to a client. The strings of an error and
-- of a status are their bytes.
use redvector.Base.{ℕ, suc, Bool, true, false, [], ◌∷◌, ◌++◌, Bytes, codes, ℤ, length}
use redvector.Decimal.{to_string, to_string_i64}

-- `Array(Vec<Response>)`: the vector is the second type of the block.
mutual
  pub data Response : Type 0 where
    nil : Response
    integer : ℤ → Response
    bytes : Bytes → Response
    error : Bytes → Response
    status : Bytes → Response
    array : Responses → Response

  pub data Responses : Type 0 where
    done : Responses
    then_ : Response → Responses → Responses

abbrev pub crlf : Bytes
crlf = 13 ∷ 10 ∷ []

unfoldable pub count : Responses → ℕ
count done = 0
count (then_ r rs) = suc (count rs)

unfoldable mutual
  unfolding count

  pub as_bytes : Response → Bytes
  as_bytes nil = codes "$-1" ++ crlf
  as_bytes (bytes d) = b'$' ∷ to_string (length d) ++ crlf ++ d ++ crlf
  as_bytes (integer i) = b':' ∷ to_string_i64 i ++ crlf
  as_bytes (error d) = b'-' ∷ d ++ crlf
  as_bytes (status d) = b'+' ∷ d ++ crlf
  as_bytes (array a) = b'*' ∷ to_string (count a) ++ crlf ++ all_bytes a

  -- `a.iter().map(|el| el.as_bytes()).collect().concat()`
  pub all_bytes : Responses → Bytes
  all_bytes done = []
  all_bytes (then_ r rs) = as_bytes r ++ all_bytes rs

abbrev pub is_error : Response → Bool
is_error (error d) = true
is_error _ = false

abbrev pub is_status : Response → Bool
is_status (status d) = true
is_status _ = false
