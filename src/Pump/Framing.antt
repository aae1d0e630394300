-- ===== src/Pump/Framing.antt =====
-- The data sent to pump.fun reads back as the arguments that it was made from.
use grokchain_programs.Base.{
  ℕ, ◌+◌, ◌%◌, ◌≤◌, ◌<◌, ◌≡◌, refl, Bool, true, false, String, count, List, [], ◌∷◌, ◌++◌, Option,
  none, some, length, take, drop, leb, le→leb, ap, subst, ◌∙◌, if◌then◌else◌, from_le_bytes,
  from_le_bytes-u64_bytes, u64_bytes, u64_size, le_bytes, utf8, length-utf8, length-append,
  take-length, drop-length, arith,
}
use grokchain_programs.Constants.{pump_buy_v2_disc, pump_sell_v2_disc, pump_create_v2_disc}
use grokchain_programs.Policy.Jupiter.{is_empty, bytes_eq}
use grokchain_programs.Pump.Checks.{
  require_nonempty_pump_data, require_pump_create_strings, require_nonempty_pump_create_data,
}
use grokchain_programs.Pump.Encoding.{
  encode_pump_buy_v2, encode_pump_sell_v2, encode_borsh_string, encode_pump_create_v2, u8_of,
}
use grokchain_programs.Runtime.Address.{Pubkey, pubkey_bytes}
use grokchain_programs.Runtime.World.{ok}

infixl 5 ◌>>=◌
abbrev pub ◌>>=◌ : {A B : Type 0} → Option A → (A → Option B) → Option B
none >>= f = none
some a >>= f = f a

read_then :
    {A B : Type 0} (o : Option A) (f : A → Option B) {a : A} {r : Option B}
    → o ≡ some a
    → f a ≡ r
    → (o >>= f) ≡ r
read_then o f e h = ap (λ x. x >>= f) e ∙ h

-- A reader that is independent of the encoders: the next `n` bytes, and what follows them.
abbrev pub read_bytes : ℕ → List ℕ → Option (List ℕ × List ℕ)
read_bytes n bytes = if leb n (length bytes) then some (take n bytes, drop n bytes) else none

read_bytes-append : (xs ys : List ℕ) → read_bytes (length xs) (xs ++ ys) ≡ some (xs, ys)
read_bytes-append xs ys =
    rw
      (
        le→leb (length xs) (length (xs ++ ys)) (omega (arith, length-append xs ys)),
        take-length xs ys,
        drop-length xs ys,
      )
      refl

-- A Borsh string: a u32 length, and that many bytes.
unfoldable pub read_string : List ℕ → Option (List ℕ × List ℕ)
read_string bytes = do (header, rest) ← read_bytes 4 bytes; read_bytes (from_le_bytes header) rest

from_le_bytes-u32 : (n : ℕ) → n < 0x1_0000_0000 → from_le_bytes (le_bytes 4 (n % 0x1_0000_0000)) ≡ n
from_le_bytes-u32 n h = omega arith

read_string-framed :
    (header body ys : List ℕ)
    → length header ≡ 4
    → from_le_bytes header ≡ length body
    → read_string (header ++ (body ++ ys)) ≡ some (body, ys)
unfolding read_string
read_string-framed header body ys four size =
    let first : read_bytes 4 (header ++ (body ++ ys)) ≡ some (header, body ++ ys) =
      subst (λ n. read_bytes n (header ++ (body ++ ys)) ≡ some (header, body ++ ys)) four
        (read_bytes-append header (body ++ ys)) in
    read_then (read_bytes 4 (header ++ (body ++ ys))) _ first
      (ap (λ n. read_bytes n (body ++ ys)) size ∙ read_bytes-append body ys)

read_string-encode :
    (s : String) (ys : List ℕ)
    → length (utf8 s) < 0x1_0000_0000
    → read_string (encode_borsh_string s ++ ys) ≡ some (utf8 s, ys)
unfolding encode_borsh_string
read_string-encode s ys h =
    read_string-framed (le_bytes 4 (length (utf8 s) % 0x1_0000_0000)) (utf8 s) ys refl
      (from_le_bytes-u32 (length (utf8 s)) h)

-- What the data of a `create_v2` says: the bytes of the three texts and of the creator, and the two
-- flags.
pub record CreateData : Type 0 where
  pub disc : List ℕ
  pub name : List ℕ
  pub symbol : List ℕ
  pub uri : List ℕ
  pub creator : List ℕ
  pub flags : List ℕ

unfoldable pub read_create : List ℕ → Option CreateData
read_create bytes = do
  (disc, r0) ← read_bytes 8 bytes
  (name, r1) ← read_string r0
  (symbol, r2) ← read_string r1
  (uri, r3) ← read_string r2
  (creator, flags) ← read_bytes 32 r3
  some (record {
    disc = disc;
    name = name;
    symbol = symbol;
    uri = uri;
    creator = creator;
    flags = flags;
  })

short_text : (s : String) (n : ℕ) → count s ≤ n → n ≤ 200 → length (utf8 s) < 0x1_0000_0000
short_text s n h m = omega (arith, h, m, length-utf8 s)

checked_texts :
    (name symbol uri : String)
    → require_pump_create_strings name symbol uri ≡ ok tt
    → (count name ≤ 32) × (count symbol ≤ 13) × (count uri ≤ 200)
unfolding require_pump_create_strings
checked_texts name symbol uri h = ground arith

-- The data of a `create_v2` whose texts pass the checks reads back, by a reader of Borsh strings
-- that is independent of the encoder, as the bytes of its texts, the creator's address and the two
-- flags.
pub encode_pump_create_v2-read :
    (name symbol uri : String) (creator : Pubkey) (mayhem cashback : Bool)
    → require_pump_create_strings name symbol uri ≡ ok tt
    → read_create (encode_pump_create_v2 name symbol uri creator mayhem cashback)
      ≡ some (record {
        disc = pump_create_v2_disc;
        name = utf8 name;
        symbol = utf8 symbol;
        uri = utf8 uri;
        creator = pubkey_bytes creator;
        flags = u8_of mayhem ∷ u8_of cashback ∷ [];
      })
unfolding read_create encode_pump_create_v2
encode_pump_create_v2-read name symbol uri creator mayhem cashback h =
    let (n, y, u) = checked_texts name symbol uri h in
    let last = u8_of mayhem ∷ u8_of cashback ∷ [] in
    let after = pubkey_bytes creator ++ last in
    let first = read_bytes-append pump_create_v2_disc (
      encode_borsh_string name
      ++ (encode_borsh_string symbol ++ (encode_borsh_string uri ++ after))) in
    read_then (read_bytes 8 (encode_pump_create_v2 name symbol uri creator mayhem cashback)) _ first
      (read_then (read_string _) _
        (read_string-encode name (encode_borsh_string symbol ++ (encode_borsh_string uri ++ after))
          (short_text name 32 n (omega arith)))
        (read_then (read_string _) _
          (read_string-encode symbol (encode_borsh_string uri ++ after)
            (short_text symbol 13 y (omega arith)))
          (read_then (read_string _) _
            (read_string-encode uri after (short_text uri 200 u (omega arith)))
            (read_then {B = CreateData} (read_bytes 32 after)
              (λ x. some (record {
                disc = pump_create_v2_disc;
                name = utf8 name;
                symbol = utf8 symbol;
                uri = utf8 uri;
                creator = x.0;
                flags = x.1;
              }))
              (read_bytes-append (pubkey_bytes creator) last) refl))))

-- The data of a trade: its discriminator and the two numbers.
abbrev pub read_trade : List ℕ → List ℕ × ℕ × ℕ
read_trade bytes =
    (take 8 bytes, from_le_bytes (take 8 (drop 8 bytes)), from_le_bytes (take 8 (drop 16 bytes)))

trade_numbers :
    {A : Type 0} (disc : A) (a b : ℕ)
    → a < u64_size
    → b < u64_size
    → ◌≡◌ {A = A × ℕ × ℕ}
        (disc, from_le_bytes (u64_bytes a), from_le_bytes (u64_bytes b))
        (disc, a, b)
trade_numbers disc a b ha hb = rw (from_le_bytes-u64_bytes a ha, from_le_bytes-u64_bytes b hb) refl

-- The data of a `buy_v2` and of a `sell_v2`, for amounts that are u64s, reads back as the
-- instruction's discriminator and the two numbers, and is what `require_nonempty_pump_data` accepts.
pub encode_pump_trade-read :
    (amount limit : ℕ)
    → amount < u64_size
    → limit < u64_size
    → (read_trade (encode_pump_buy_v2 amount limit) ≡ (pump_buy_v2_disc, amount, limit))
      × (read_trade (encode_pump_sell_v2 amount limit) ≡ (pump_sell_v2_disc, amount, limit))
      × (require_nonempty_pump_data (encode_pump_buy_v2 amount limit) ≡ ok tt)
      × (require_nonempty_pump_data (encode_pump_sell_v2 amount limit) ≡ ok tt)
unfolding encode_pump_buy_v2 encode_pump_sell_v2 require_nonempty_pump_data
encode_pump_trade-read amount limit ha hl = (
  trade_numbers pump_buy_v2_disc amount limit ha hl,
  trade_numbers pump_sell_v2_disc amount limit ha hl,
  refl,
  refl,
)

length-encode_borsh_string : (s : String) → length (encode_borsh_string s) ≡ 4 + length (utf8 s)
unfolding encode_borsh_string
length-encode_borsh_string s = omega arith

length_of_five :
    (a b c d e : List ℕ)
    → length (a ++ (b ++ (c ++ (d ++ e)))) ≡ length a + length b + length c + length d + length e
length_of_five a b c d e = omega (
  arith,
  length-append a (b ++ (c ++ (d ++ e))),
  length-append b (c ++ (d ++ e)),
  length-append c (d ++ e),
  length-append d e,
)

accepted :
    (payload : List ℕ)
    → is_empty payload ≡ false
    → 54 ≤ length payload
    → bytes_eq (take 8 payload) pump_create_v2_disc ≡ true
    → require_nonempty_pump_create_data payload ≡ ok tt
unfolding require_nonempty_pump_create_data
accepted payload full long begins = ground arith

-- The data of a `create_v2` is what `require_nonempty_pump_create_data` accepts.
pub encode_pump_create_v2_accepted :
    (name symbol uri : String) (creator : Pubkey) (mayhem cashback : Bool)
    → require_nonempty_pump_create_data
        (encode_pump_create_v2 name symbol uri creator mayhem cashback)
      ≡ ok tt
unfolding encode_pump_create_v2
encode_pump_create_v2_accepted name symbol uri creator mayhem cashback =
    accepted (encode_pump_create_v2 name symbol uri creator mayhem cashback) refl
      (omega (
        arith,
        length_of_five pump_create_v2_disc (encode_borsh_string name) (encode_borsh_string symbol)
            (encode_borsh_string uri) (pubkey_bytes creator ++ u8_of mayhem ∷ u8_of cashback ∷ []),
        length-encode_borsh_string name,
        length-encode_borsh_string symbol,
        length-encode_borsh_string uri,
      ))
      refl
