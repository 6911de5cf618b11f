-- ===== src/WebSocket/Handshake/Exact.antt =====
-- src/uv_net/websocket_connection.cpp: exactly which requests `ParseHandshake` finds a key in, and
-- that what follows a request does not change its key.
use libuv_server.Prelude.{
  ℕ, suc, ◌+◌, ◌^◌, ◌≤◌, ◌<◌, ◌≡◌, refl, sym, ap, ◌∙◌, ◌↔◌, true, some, [], ◌∷◌, ◌++◌, append_assoc,
  arith, length, length-append, drop, drop-append_self, Bytes, Bool-cases, Option-cases, inl, inr,
}
use libuv_server.WebSocket.Handshake.{is_prefix, search_from, find, key_header, crlf, handshake_key}
use libuv_server.WebSocket.Handshake.Request.{IsAbsent, request, handshake_key-request}

-- A pattern that begins a text is a part of it.
is_prefix-split :
    (pattern text : Bytes)
    → is_prefix pattern text ≡ true
    → text ≡ pattern ++ drop (length pattern) text
is_prefix-split [] text h = refl
is_prefix-split (p ∷ ps) [] h = cc
is_prefix-split (p ∷ ps) (c ∷ cs) h = ground (arith, is_prefix-split ps cs)

-- What a search finds: the pattern, and nowhere before.
record Found (pattern text : Bytes) (i k : ℕ) : Type 0 where
  before : Bytes
  after : Bytes
  splits : text ≡ before ++ (pattern ++ after)
  place : k ≡ i + length before
  absent : IsAbsent pattern before (pattern ++ after)

prefix-Found :
    (pattern text : Bytes) (i k : ℕ)
    → is_prefix pattern text ≡ true
    → k ≡ i
    → Found pattern text i k
prefix-Found pattern text i k h e = record {
  before = [];
  after = drop (length pattern) text;
  splits = is_prefix-split pattern text h;
  place = omega arith;
  absent = tt;
}

search_from-Found :
    (pattern text : Bytes) (i k : ℕ) → search_from pattern text i ≡ some k → Found pattern text i k
unfolding search_from
search_from-Found pattern [] i k h = elim (Bool-cases (is_prefix pattern [])) [
  | inl p ↦ prefix-Found pattern [] i k p (ground arith)
  | inr n ↦ ground arith
]
search_from-Found pattern (c ∷ cs) i k h = elim (Bool-cases (is_prefix pattern (c ∷ cs))) [
  | inl p ↦ prefix-Found pattern (c ∷ cs) i k p (ground arith)
  | inr n ↦
      let f = search_from-Found pattern cs (suc i) k (ground arith) in
      record {
        before = c ∷ f.before;
        after = f.after;
        splits = ap (◌∷◌ c) f.splits;
        place = omega (arith, f.place);
        absent = (rw f.splits at n, f.absent);
      }
]

-- There is no line break in the name of the header.
search_from-header :
    (text : Bytes) (i : ℕ)
    → search_from crlf (key_header ++ text) i ≡ search_from crlf text (19 + i)
unfolding search_from
search_from-header text i = ground arith

-- Whether a pattern begins a text that is as long depends on nothing behind that text.
is_prefix-append_le :
    (pattern text more : Bytes)
    → length pattern ≤ length text
    → is_prefix pattern (text ++ more) ≡ is_prefix pattern text
is_prefix-append_le [] text more h = refl
is_prefix-append_le (p ∷ ps) [] more h = absurd (omega arith)
is_prefix-append_le (p ∷ ps) (c ∷ cs) more h =
    rw (is_prefix-append_le ps cs more (omega arith)) refl

-- So the pattern is absent in front of its first occurrence whatever comes behind that.
IsAbsent-more :
    (pattern text after more : Bytes)
    → IsAbsent pattern text (pattern ++ after)
    → IsAbsent pattern text (pattern ++ more)
IsAbsent-more pattern [] after more h = tt
IsAbsent-more pattern (c ∷ cs) after more h =
    (rw (prefix_of more) (rw (prefix_of after) at h.0), IsAbsent-more pattern cs after more h.1)
  where
    prefix_of :
        (rest : Bytes)
        → is_prefix pattern (c ∷ (cs ++ (pattern ++ rest)))
          ≡ is_prefix pattern (c ∷ (cs ++ pattern))
    prefix_of rest =
        ap (λ t. is_prefix pattern (c ∷ t)) (sym (append_assoc cs pattern rest))
        ∙ is_prefix-append_le pattern (c ∷ (cs ++ pattern)) rest
            (omega (arith, length-append cs pattern))

-- A request with a line of the key: the header stands nowhere before its line, and the key has no
-- line break.
pub record KeyLine (text key : Bytes) : Type 0 where
  pub before : Bytes
  pub after : Bytes
  pub is_request : text ≡ request before key after
  pub first : IsAbsent key_header before (key_header ++ (key ++ (crlf ++ after)))
  pub unbroken : IsAbsent crlf key (crlf ++ after)

length-KeyLine : (text key : Bytes) (l : KeyLine text key) → length key ≤ length text
length-KeyLine text key l = omega (
  arith,
  ap length l.is_request,
  length-append l.before (key_header ++ (key ++ (crlf ++ l.after))),
  length-append key (crlf ++ l.after),
)

KeyLine-handshake_key :
    (text key : Bytes) → length key < 2 ^ 64 → KeyLine text key → handshake_key text ≡ some key
KeyLine-handshake_key text key short l =
    ap handshake_key l.is_request
    ∙ handshake_key-request l.before key l.after l.first l.unbroken short

-- The two searches of `ParseHandshake`, where both find something.
searches-KeyLine :
    (text : Bytes) (key_pos key_end : ℕ)
    → find text key_header 0 ≡ some key_pos
    → find text crlf key_pos ≡ some key_end
    → (key : Bytes) × KeyLine text key
searches-KeyLine text key_pos key_end h e =
    let f = search_from-Found key_header text 0 key_pos h in
    let here : drop key_pos text ≡ key_header ++ f.after =
      ap (λ t. drop key_pos t) f.splits
      ∙ ap (λ n. drop n (f.before ++ (key_header ++ f.after))) (omega (arith, f.place))
      ∙ drop-append_self f.before (key_header ++ f.after) in
    let g = search_from-Found crlf f.after (19 + key_pos) key_end (
      sym (search_from-header f.after key_pos)
      ∙ ap (λ t. search_from crlf t key_pos) (sym here)
      ∙ e) in
    (
      g.before,
      record {
        before = f.before;
        after = g.after;
        is_request = f.splits ∙ ap (λ t. f.before ++ (key_header ++ t)) g.splits;
        first = rw g.splits at f.absent;
        unbroken = g.absent;
      },
    )

handshake_key-KeyLine :
    (text key : Bytes) → handshake_key text ≡ some key → (found : Bytes) × KeyLine text found
unfolding handshake_key
handshake_key-KeyLine text key h = elim (Option-cases (find text key_header 0)) [
  | inl n ↦ let h' = rw (n, handshake_key) at h in cc
  | inr (key_pos, n) ↦ elim (Option-cases (find text crlf key_pos)) [
    | inl m ↦ let h' = rw (n, handshake_key) at h in let h'' = rw m at h' in cc
    | inr (key_end, m) ↦ searches-KeyLine text key_pos key_end n m
  ]
]

-- `ParseHandshake` cuts a key out of a request of fewer than 2^64 bytes exactly where the request has
-- a line with the header of the key; the key is then what stands between the first such header and the
-- next line break, whatever comes before and after, and the difference of the two places never wraps
-- around.
pub handshake_key_iff :
    (text key : Bytes) → length text < 2 ^ 64 → (handshake_key text ≡ some key) ↔ KeyLine text key
handshake_key_iff text key short = (
  λ h.
      let (found, l) = handshake_key-KeyLine text key h in
      let e = KeyLine-handshake_key text found (omega (arith, length-KeyLine text found l)) l in
      let same : found ≡ key = ground arith in rw same at l,
  λ l. KeyLine-handshake_key text key (omega (arith, length-KeyLine text key l)) l,
)

-- More bytes behind a request do not change its key.
pub handshake_key-append :
    (text more key : Bytes)
    → length text < 2 ^ 64
    → handshake_key text ≡ some key
    → handshake_key (text ++ more) ≡ some key
handshake_key-append text more key short h =
    let l = (handshake_key_iff text key short).0 h in
    KeyLine-handshake_key (text ++ more) key (omega (arith, length-KeyLine text key l)) (record {
      before = l.before;
      after = l.after ++ more;
      is_request =
          ap (λ t. t ++ more) l.is_request
          ∙ append_assoc l.before (key_header ++ (key ++ (crlf ++ l.after))) more
          ∙ ap (λ t. l.before ++ (key_header ++ t)) (append_assoc key (crlf ++ l.after) more);
      first =
          IsAbsent-more key_header l.before (key ++ (crlf ++ l.after))
            (key ++ (crlf ++ (l.after ++ more))) l.first;
      unbroken = IsAbsent-more crlf key l.after (l.after ++ more) l.unbroken;
    })
