-- ===== src/Tests/Formats.antt =====
-- include/fix_size_protocol.h, include/uv_net/buffer_pool.h, include/Logger.h and `Base64Encode` at
-- concrete inputs.
use libuv_server.Prelude.{◌^◌, pos, ◌≡◌, refl, some, [], ◌∷◌, arith, codes}
use libuv_server.Log.{log_init, generate_filename, init, add_appender}
use libuv_server.BufferPool.{make_pool, acquire_buffer, release_buffer}
use libuv_server.BufferPool.Ownership.{
  Users, start, Reach, here, next, acquires, releases, IsSound, Reach-IsSound,
}
use libuv_server.Base64.{base64_encode, encode_loop, encode_rest, look_up, char_array_4}
use libuv_server.Base64.RoundTrip.{decode, decode-base64_encode}

-- One buffer is taken, a second one too, and the first is given back.
abbrev one_back : Users
one_back = record {
  held = 1 ∷ [];
  pool = record { buffer_size = 64; free_buffers = 0 ∷ []; allocated = 2 };
  peak = 2;
}

abbrev both_taken : Users
both_taken = record {
  held = 1 ∷ 0 ∷ [];
  pool = record { buffer_size = 64; free_buffers = []; allocated = 2 };
  peak = 2;
}

abbrev one_taken : Users
one_taken = record {
  held = 0 ∷ [];
  pool = record { buffer_size = 64; free_buffers = []; allocated = 1 };
  peak = 1;
}

takes_and_returns : Reach (start 64) one_back
unfolding acquire_buffer release_buffer make_pool
takes_and_returns =
    next (next (next here (acquires (start 64))) (acquires one_taken))
      (releases both_taken (1 ∷ []) [] 0 refl)

Reach-IsSound_example : IsSound one_back
Reach-IsSound_example = Reach-IsSound 64 {u = one_back} takes_and_returns

encodes_foobar : base64_encode (codes "foobar") ≡ codes "Zm9vYmFy"
unfolding base64_encode encode_loop look_up char_array_4 encode_rest
encodes_foobar = refl

decode-base64_encode_example : decode (base64_encode (102 ∷ 111 ∷ [])) ≡ some (102 ∷ 111 ∷ [])
decode-base64_encode_example =
    decode-base64_encode (102 ∷ 111 ∷ []) (omega arith, (omega arith, tt))

-- The programs log to files of 64 MiB, seven of them, of a name of its own where `strftime` fails.
logs_somewhere :
    log_init (λ now. now) (λ size format tm. []) 7 (pos 5) (pos (2 ^ 26)) (pos 7)
    ≡ init (pos 5) (codes "log_unknown.log") 67108864 (pos 7) ∷ add_appender ∷ []
unfolding log_init generate_filename
logs_somewhere = refl
