-- ===== src/Grpc/Examples.antt =====
-- Runs of the framing of grpc.py, and an instance of what is proved about it.
use grapec.Base.{◌≡◌, refl, [], ◌∷◌, some, drop}
use grapec.Errors.{ok, err, transport_error, not_one_message}
use grapec.Grpc.{Compressors, gzip, identity, frame, unframe}
use grapec.Grpc.Laws.{IsLossless, unframe-frame}
use grapec.Struct.{pack_unsigned, unpack_unsigned}
use grapec.Text.{same_text}
use grapec.Wire.{Bytes}

-- Compressors that put a byte in front.
abbrev marked : Compressors
marked = record {
  gzip_compress = λ b. 31 ∷ b;
  gzip_decompress = λ b. ok (drop 1 b);
  zlib_compress = λ b. 120 ∷ b;
  zlib_decompress = λ b. ok (drop 1 b);
}

abbrev marked_lossless : IsLossless marked
marked_lossless = record { gzip_back = λ b. refl; zlib_back = λ b. refl }

abbrev zipped : Bytes
zipped = 1 ∷ 0 ∷ 0 ∷ 0 ∷ 3 ∷ 31 ∷ 7 ∷ 8 ∷ []

frame_run : frame marked (some gzip) (7 ∷ 8 ∷ []) ≡ ok zipped
unfolding frame same_text pack_unsigned
frame_run = refl

unframe_two :
    unframe marked (0 ∷ 0 ∷ 0 ∷ 0 ∷ 1 ∷ 7 ∷ 8 ∷ []) identity ≡ err (transport_error not_one_message)
unfolding unframe unpack_unsigned
unframe_two = refl

unframe-frame_example : unframe marked zipped gzip ≡ ok (7 ∷ 8 ∷ [])
unframe-frame_example =
    unframe-frame marked marked_lossless (some gzip) (7 ∷ 8 ∷ []) zipped frame_run
