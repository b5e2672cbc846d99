-- ===== src/HueStream/RoundTrip.antt =====
-- The parser against the wire format of the Hue Entertainment protocol, written down as encoders.
use ha_hue_entertainment.Prelude.{
  ℕ, zero, suc, ◌+◌, ◌*◌, ◌/◌, ◌%◌, ◌≤◌, ◌<◌, ◌≡◌, refl, ap, ◌∙◌, sym, subst, some, List, [], ◌∷◌,
  ◌++◌, length, get_or, length-append, arith, le→leb, lt→leb_false,
}
use ha_hue_entertainment.HueStream.{
  ChannelColor, huestream_header, byte_at, u16_at, v2_channel, v1_channel, channel_loop,
  parse_v2_channels, parse_v1_channels, parse_huestream_frame,
}
use mathlib.Core.List.{append_assoc}

-- A big-endian 16-bit word.
abbrev pub word : ℕ → List ℕ → List ℕ
word n rest = (n / 256) ∷ (n % 256) ∷ rest

abbrev pub encode_v2_channel : ChannelColor → List ℕ
encode_v2_channel c = c.channel_id ∷ word c.r (word c.g (word c.b []))

-- A type byte stands before the 16-bit light id.
abbrev pub encode_v1_channel : ℕ → ChannelColor → List ℕ
encode_v1_channel kind c = kind ∷ word c.channel_id (word c.r (word c.g (word c.b [])))

abbrev pub encode_channels : (ChannelColor → List ℕ) → List ChannelColor → List ℕ
encode_channels encode [] = []
encode_channels encode (c ∷ cs) = encode c ++ encode_channels encode cs

get_or-append : (p x : List ℕ) (i : ℕ) → get_or (p ++ x) (length p + i) 0 ≡ get_or x i 0
get_or-append [] x i = ap (λ k. get_or x k 0) (omega arith)
get_or-append (y ∷ p) x i =
    ap (λ k. get_or (y ∷ p ++ x) k 0)
      (let e : suc (length p) + i ≡ suc (length p + i) = omega arith in e)
    ∙ get_or-append p x i

-- A decoder of one record that reads each record back, wherever the record stands in the data.
module _ (size : ℕ) (encode : ChannelColor → List ℕ) (decode : List ℕ → ℕ → ChannelColor)
    (width : (c : ChannelColor) → length (encode c) ≡ size)
    (reads : (c : ChannelColor) (p rest : List ℕ)
      → decode (p ++ (encode c ++ rest)) (length p) ≡ c) where
  channel_loop-encode :
      (fuel : ℕ) (cs : List ChannelColor) (p tail bytes : List ℕ)
      → length cs < fuel
      → length tail < size
      → bytes ≡ p ++ (encode_channels encode cs ++ tail)
      → channel_loop fuel (decode bytes) size (length bytes) (length p) ≡ cs
  unfolding channel_loop
  channel_loop-encode zero cs p tail bytes f t e = elim f [ ]
  channel_loop-encode (suc fuel) [] p tail bytes f t e = rw (
      lt→leb_false (length p + size) (length bytes)
        (omega (arith, ap length e, length-append {0} p tail)))
  channel_loop-encode (suc fuel) (c ∷ cs) p tail bytes f t e =
      let next = encode_channels encode cs ++ tail in
      let split : bytes ≡ p ++ (encode c ++ next) =
        e ∙ ap (λ x. p ++ x) (append_assoc (encode c) (encode_channels encode cs) tail) in
      let moved : bytes ≡ (p ++ encode c) ++ next = split ∙ sym (append_assoc p (encode c) next) in
      let long : length p + size ≤ length bytes = omega (
        arith,
        ap length moved,
        length-append {0} (p ++ encode c) next,
        length-append {0} p (encode c),
        width c,
      ) in
      let head : decode bytes (length p) ≡ c = rw split (reads c p next) in
      let offset : length p + size ≡ length (p ++ encode c) =
        omega (arith, length-append {0} p (encode c), width c) in
      rw (le→leb (length p + size) (length bytes) long, head, offset)
        (ap (λ x. c ∷ x)
          (channel_loop-encode fuel cs (p ++ encode c) tail bytes (omega arith) t moved))

-- Every read of a record lands in it.
u16_at-append : (p x : List ℕ) (i : ℕ) → u16_at (p ++ x) (length p + i) ≡ u16_at x i
unfolding u16_at
u16_at-append p x i = omega (
  arith,
  get_or-append p x i,
  get_or-append p x (i + 1),
  ap (λ k. get_or (p ++ x) k 0) (let e : length p + i + 1 ≡ length p + (i + 1) = omega arith in e),
)

byte_at-append : (p x : List ℕ) → byte_at (p ++ x) (length p) ≡ byte_at x 0
byte_at-append p x =
    ap (λ k. get_or (p ++ x) k 0) (let e : length p ≡ length p + 0 = omega arith in e)
    ∙ get_or-append p x 0

word_value : (n : ℕ) → n / 256 * 256 + n % 256 ≡ n
word_value n = omega arith

v2_channel-encode :
    (c : ChannelColor) (p rest : List ℕ)
    → v2_channel (p ++ (encode_v2_channel c ++ rest)) (length p) ≡ c
unfolding v2_channel u16_at
v2_channel-encode c p rest =
    let x = encode_v2_channel c ++ rest in
    rw (byte_at-append p x) (
      unfold u16_at in
      λ i. record {
        channel_id = c.channel_id;
        r = (u16_at-append p x 1 ∙ word_value c.r) i;
        g = (u16_at-append p x 3 ∙ word_value c.g) i;
        b = (u16_at-append p x 5 ∙ word_value c.b) i;
      })

v1_channel-encode :
    (kind : ℕ) (c : ChannelColor) (p rest : List ℕ)
    → v1_channel (p ++ (encode_v1_channel kind c ++ rest)) (length p) ≡ c
unfolding v1_channel u16_at
v1_channel-encode kind c p rest =
    let x = encode_v1_channel kind c ++ rest in
    λ i. record {
      channel_id = (u16_at-append p x 1 ∙ word_value c.channel_id) i;
      r = (u16_at-append p x 3 ∙ word_value c.r) i;
      g = (u16_at-append p x 5 ∙ word_value c.g) i;
      b = (u16_at-append p x 7 ∙ word_value c.b) i;
    }

length-le-encode :
    (size : ℕ) (encode : ChannelColor → List ℕ) (cs : List ChannelColor)
    → ((c : ChannelColor) → length (encode c) ≡ suc size)
    → length cs ≤ length (encode_channels encode cs)
length-le-encode size encode [] width = omega arith
length-le-encode size encode (c ∷ cs) width = omega (
  arith,
  width c,
  length-append {0} (encode c) (encode_channels encode cs),
  length-le-encode size encode cs width,
)

-- A frame: the protocol's name, the version, four bytes, the colour space, and the rest.
abbrev pub frame : ℕ → ℕ → ℕ → ℕ → ℕ → ℕ → List ℕ → List ℕ
frame version s0 s1 s2 s3 color rest =
    huestream_header ++ (version ∷ s0 ∷ s1 ∷ s2 ∷ s3 ∷ color ∷ rest)

module _ (s0 s1 s2 s3 color : ℕ) (area : List ℕ) (cs : List ChannelColor) (tail : List ℕ) where
  v2_frame : List ℕ
  v2_frame = frame 2 s0 s1 s2 s3 color (area ++ (encode_channels encode_v2_channel cs ++ tail))

  parse_v2_channels-encode : length area ≡ 37 → length tail < 7 → parse_v2_channels v2_frame ≡ cs
  unfolding parse_v2_channels v2_frame
  parse_v2_channels-encode a t =
      let p = frame 2 s0 s1 s2 s3 color area in
      let e : length p ≡ 52 = omega arith in
      let body = encode_channels encode_v2_channel cs ++ tail in
      subst
        (λ k.
          channel_loop (length (p ++ body)) (v2_channel (p ++ body)) 7 (length (p ++ body)) k ≡ cs)
        e
        (channel_loop-encode 7 encode_v2_channel v2_channel (λ c. refl) v2_channel-encode
          (length (p ++ body)) cs p tail (p ++ body)
          (omega (
            arith,
            length-append {0} p body,
            length-append {0} (encode_channels encode_v2_channel cs) tail,
            length-le-encode 6 encode_v2_channel cs (λ c. refl),
          ))
          t refl)

  -- A version 2 frame, whatever its sequence, reserved and area bytes and its colour space, parses to
  -- exactly the channels that were encoded, in order; fewer than seven bytes behind them are ignored.
  pub parse-encode_v2 :
      length area ≡ 37
      → length tail < 7
      → parse_huestream_frame
          (frame 2 s0 s1 s2 s3 color (area ++ (encode_channels encode_v2_channel cs ++ tail)))
        ≡ some (record { api_version = 2; color_space = color; channels = cs })
  unfolding parse_huestream_frame v2_frame
  parse-encode_v2 a t =
      let body = encode_channels encode_v2_channel cs ++ tail in
      ground (arith, parse_v2_channels-encode a t, length-append {0} area body)

module _ (s0 s1 s2 s3 color last kind : ℕ) (c : ChannelColor) (cs : List ChannelColor)
    (tail : List ℕ) where
  v1_body : List ℕ
  v1_body = encode_channels (encode_v1_channel kind) (c ∷ cs) ++ tail

  v1_frame : List ℕ
  unfolding v1_body
  v1_frame = frame 1 s0 s1 s2 s3 color (last ∷ v1_body)

  parse_v1_channels-encode : length tail < 9 → parse_v1_channels v1_frame ≡ c ∷ cs
  unfolding parse_v1_channels v1_frame
  parse_v1_channels-encode t =
      let p = frame 1 s0 s1 s2 s3 color (last ∷ []) in
      channel_loop-encode 9 (encode_v1_channel kind) v1_channel (λ c. refl) (v1_channel-encode kind)
        (length (p ++ v1_body)) (c ∷ cs) p tail (p ++ v1_body)
        (omega (
          arith,
          length-append {0} (encode_channels (encode_v1_channel kind) (c ∷ cs)) tail,
          length-le-encode 8 (encode_v1_channel kind) (c ∷ cs) (λ c. refl),
        ))
        t refl

  -- A version 1 frame with at least one channel parses to exactly the channels that were encoded, in
  -- order, whatever its other header bytes and the type byte of its records; fewer than nine bytes
  -- behind them are ignored.
  pub parse-encode_v1 :
      length tail < 9
      → parse_huestream_frame (
          frame 1 s0 s1 s2 s3 color
            (last ∷ (encode_channels (encode_v1_channel kind) (c ∷ cs) ++ tail)))
        ≡ some (record { api_version = 1; color_space = color; channels = c ∷ cs })
  unfolding parse_huestream_frame v1_frame
  parse-encode_v1 t = ground (arith, parse_v1_channels-encode t)
