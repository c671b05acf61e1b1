-- ===== src/Thrift/Message/Total.antt =====
-- `application_error` and `decode_message` of thrift.py on any bytes.
use grapec.Base.{
  ℕ, zero, suc, ◌+◌, ◌<◌, ◌≡◌, arith, Bool, true, false, ◌&&◌, [], ◌==◌, if◌then◌else◌, length,
  bit_and,
}
use grapec.Base.Int.{ℤ, pos}
use grapec.Errors.{Result, ok, err, ◌>>=◌, Error, thrift_error, rpc_error, recursion_error}
use grapec.Text.{Str, decode_replace}
use grapec.Thrift.{need, read, read_byte, read_binary, skip, string_code, i32_code}
use grapec.Thrift.Message.{
  is_number, to_error, application_loop, application_error, decode_message, read_u32,
}
use grapec.Thrift.Total.{
  Yields, Yields-bind, need_lem, read_lem, read_binary_lem, skip_lem, Skips, Skips-bind, read-Skips,
  read_byte-Skips, read_binary-Skips,
}
use grapec.Wire.{Bytes}

abbrev IsAny : Str × ℤ → Type 0
IsAny p = Unit {0}

application_loop_lem :
    (limit fuel : ℕ) (body : Bytes) (text : Str) (kind : ℤ)
    → length body < fuel
    → Skips IsAny (application_loop limit fuel body text kind)
unfolding application_loop
application_loop_lem limit zero body text kind h = elim h [ ]
application_loop_lem limit (suc fuel) body text kind h =
    Skips-bind _ IsAny (read_byte body) _ (read_byte-Skips body) λ (ttype, buf1) e1.
      let field =
        Skips-bind (λ p. length p.1 + 2 ≡ length buf1) IsAny (read 2 buf1)
          (λ p.
            if is_number 1 p.0 && ttype == string_code
            then (read_binary p.1 >>= λ q.
                application_loop limit fuel q.1 (decode_replace q.0) kind)
            else if is_number 2 p.0 && ttype == i32_code
            then (read 4 p.1 >>= λ q. application_loop limit fuel q.1 text q.0)
            else (skip limit p.1 ttype >>= λ rest. application_loop limit fuel rest text kind))
          (read-Skips 2 buf1)
          (λ (number, buf2) e2.
            branches fuel buf2 text kind ttype (is_number 1 number && ttype == string_code)
              (is_number 2 number && ttype == i32_code)
              (λ rest t k r. application_loop_lem limit fuel rest t k (omega arith))) in
      ground arith
  where
    branches :
        (fuel : ℕ) (buf : Bytes) (text : Str) (kind : ℤ) (ttype : ℕ) (a b : Bool)
        → ((rest : Bytes) (t : Str) (k : ℤ)
            → length rest < length buf
            → Skips IsAny (application_loop limit fuel rest t k))
        → Skips IsAny (
            if a
            then (read_binary buf >>= λ q.
                application_loop limit fuel q.1 (decode_replace q.0) kind)
            else if b
            then (read 4 buf >>= λ q. application_loop limit fuel q.1 text q.0)
            else (skip limit buf ttype >>= λ rest. application_loop limit fuel rest text kind))
    branches fuel buf text kind ttype true b ih =
        Skips-bind _ IsAny (read_binary buf) _ (read_binary-Skips buf)
          λ (raw, rest) e. ih rest (decode_replace raw) kind e
    branches fuel buf text kind ttype false true ih =
        Skips-bind _ IsAny (read 4 buf) _ (read-Skips 4 buf)
          λ (k, rest) e. ih rest text k (omega arith)
    branches fuel buf text kind ttype false false ih =
        Skips-bind _ IsAny (skip limit buf ttype) _ (skip_lem limit buf ttype)
          λ rest e. ih rest text kind e

-- An RpcError, a ThriftError or a RecursionError.
abbrev pub IsServerError : Error → Type 0
IsServerError (rpc_error code) = Unit {0}
IsServerError (thrift_error fault) = Unit {0}
IsServerError recursion_error = Unit {0}
IsServerError _ = ⊥

to_error_lem : (r : Result (Str × ℤ)) → Skips IsAny r → IsServerError (to_error r)
to_error_lem (ok (text, kind)) h = tt
to_error_lem (err (thrift_error fault)) h = tt
to_error_lem (err recursion_error) h = tt
to_error_lem (err _) h = elim h [ ]

-- Whatever the body of an exception message is, and however deep Python lets it nest,
-- application_error ends with the RpcError that it returns, or with ThriftError or RecursionError
-- that it raises.
pub application_error_lem :
    (limit : ℕ) (body : Bytes) → IsServerError (application_error limit body)
unfolding application_error
application_error_lem limit body =
    to_error_lem (application_loop limit (suc (length body)) body [] (pos 0))
      (application_loop_lem limit (suc (length body)) body [] (pos 0) (omega arith))

content_lem :
    (buf : Bytes) (mtype : ℕ)
    → Yields {A = Str × ℕ × ℤ × Bytes}
        (λ m. Unit {0})
        (read_binary buf >>= λ p. (read 4 p.1 >>= λ q. ok (decode_replace p.0, mtype, q.0, q.1)))
content_lem buf mtype =
    Yields-bind (λ p. length p.1 < length buf) (λ m. Unit {0}) (read_binary buf) _
      (read_binary_lem buf)
      λ (raw, buf2) e.
        Yields-bind (λ p. length p.1 + 4 ≡ length buf2) (λ m. Unit {0}) (read 4 buf2) _
          (read_lem 4 buf2) (λ q e'. tt)

-- `decode_message` raises nothing but ThriftError.
pub decode_message_lem : (frame : Bytes) → Yields (λ m. Unit {0}) (decode_message frame)
unfolding decode_message read_u32
decode_message_lem frame =
    Yields-bind (λ p. length p.1 + 4 ≡ length frame) (λ m. Unit {0}) (read_u32 frame) _
      (Yields-bind _ (λ p. length p.1 + 4 ≡ length frame) (need 4 frame) _ (need_lem 4 frame)
        λ rest h. h)
      λ (header, buf1) e1. ground (arith, content_lem buf1 (bit_and header 0xff))
