-- ===== src/WebSocket/Handshake/Request.antt =====
-- src/uv_net/websocket_connection.cpp: the key that `ParseHandshake` cuts out of a request.
use libuv_server.Prelude.{
  ℕ, suc, ◌+◌, ◌-◌, ◌%◌, ◌^◌, ◌<◌, ◌≡◌, refl, sym, ap, ◌∙◌, true, false, some, [], ◌∷◌, ◌++◌,
  append_assoc, arith, length, length-append, take, drop, take-append_self, drop-append_self, Bytes,
}
use libuv_server.WebSocket.Handshake.{
  is_prefix, search_from, find, substr, key_header, crlf, handshake_key,
}

-- The pattern begins nowhere in the first text, when the second follows it.
abbrev pub IsAbsent : Bytes → Bytes → Bytes → Type 0
IsAbsent pattern [] rest = Unit
IsAbsent pattern (c ∷ cs) rest =
    (is_prefix pattern (c ∷ (cs ++ rest)) ≡ false) × IsAbsent pattern cs rest

search_from-here :
    (pattern rest : Bytes) (i : ℕ)
    → is_prefix pattern rest ≡ true
    → search_from pattern rest i ≡ some i
unfolding search_from
search_from-here pattern [] i h = rw h
search_from-here pattern (c ∷ cs) i h = rw h

search_from-IsAbsent :
    (pattern before rest : Bytes) (i : ℕ)
    → IsAbsent pattern before rest
    → is_prefix pattern rest ≡ true
    → search_from pattern (before ++ rest) i ≡ some (i + length before)
unfolding search_from
search_from-IsAbsent pattern [] rest i absent h =
    search_from-here pattern rest i h ∙ ap some (omega arith)
search_from-IsAbsent pattern (c ∷ cs) rest i absent h =
    rw absent.0 (search_from-IsAbsent pattern cs rest (suc i) absent.1 h ∙ ap some (omega arith))

-- A request: what comes before the header of the key, the key, and what follows its line.
abbrev pub request : Bytes → Bytes → Bytes → Bytes
request before key after = before ++ (key_header ++ (key ++ (crlf ++ after)))

finds_header :
    (before key after : Bytes)
    → IsAbsent key_header before (key_header ++ (key ++ (crlf ++ after)))
    → find (request before key after) key_header 0 ≡ some (length before)
finds_header before key after absent =
    search_from-IsAbsent key_header before (key_header ++ (key ++ (crlf ++ after))) 0 absent refl
    ∙ ap some (omega arith)

header_has_no_break :
    (key after : Bytes)
    → IsAbsent crlf key (crlf ++ after)
    → IsAbsent crlf (key_header ++ key) (crlf ++ after)
header_has_no_break key after absent = ground (arith, absent)

-- What `ParseHandshake` cuts out, by the two places that it finds.
pub handshake_key-found :
    (text : Bytes) (key_pos key_end : ℕ)
    → find text key_header 0 ≡ some key_pos
    → find text crlf key_pos ≡ some key_end
    → handshake_key text
      ≡ some (substr text (key_pos + 19) ((key_end + 2 ^ 64 - (key_pos + 19)) % 2 ^ 64))
unfolding handshake_key
handshake_key-found text key_pos key_end h e = rw (h, handshake_key) (rw e refl)

behind_header :
    (before key after : Bytes)
    → drop (length before + 19) (request before key after) ≡ key ++ (crlf ++ after)
behind_header before key after =
    ap (λ t. drop (length before + 19) t)
      (sym (append_assoc before key_header (key ++ (crlf ++ after))))
    ∙ ap (λ n. drop n ((before ++ key_header) ++ (key ++ (crlf ++ after))))
        (omega (arith, length-append before key_header))
    ∙ drop-append_self (before ++ key_header) (key ++ (crlf ++ after))

finds_end :
    (before key after : Bytes)
    → IsAbsent crlf key (crlf ++ after)
    → find (request before key after) crlf (length before) ≡ some (length before + 19 + length key)
finds_end before key after absent =
    ap (λ t. search_from crlf t (length before))
      (drop-append_self before (key_header ++ (key ++ (crlf ++ after))))
    ∙ search_from-IsAbsent crlf (key_header ++ key) (crlf ++ after) (length before)
        (header_has_no_break key after absent) refl
    ∙ ap some (omega arith)

-- `ParseHandshake` finds the key of every request in which the header of the key stands nowhere
-- before its line, and whose key, shorter than a `size_t` counts, has no line break in it: it is cut
-- out exactly, whatever comes before and after.
pub handshake_key-request :
    (before key after : Bytes)
    → IsAbsent key_header before (key_header ++ (key ++ (crlf ++ after)))
    → IsAbsent crlf key (crlf ++ after)
    → length key < 2 ^ 64
    → handshake_key (request before key after) ≡ some key
handshake_key-request before key after absent no_break short =
    handshake_key-found (request before key after) (length before) (length before + 19 + length key)
      (finds_header before key after absent) (finds_end before key after no_break)
    ∙ ap
        (λ t.
          some
            (take ((length before + 19 + length key + 2 ^ 64 - (length before + 19)) % 2 ^ 64) t))
        (behind_header before key after)
    ∙ ap (λ n. some (take n (key ++ (crlf ++ after)))) (omega arith)
    ∙ ap some (take-append_self key (crlf ++ after))
