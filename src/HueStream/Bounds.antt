-- ===== src/HueStream/Bounds.antt =====
-- What holds of every frame that the parser accepts.
use ha_hue_entertainment.Prelude.{
  ℕ, zero, suc, ◌+◌, ◌-◌, ◌*◌, ◌/◌, ◌≤◌, ◌<◌, ◌≡◌, ◌⊎◌, ap, ◌∙◌, some, List, [], ◌∷◌, inl, inr,
  length, All, arith, leb, Bool-cases, ◌==◌,
}
use ha_hue_entertainment.HueStream.{
  ChannelColor, Frame, byte_at, u16_at, v2_channel, v1_channel, channel_loop, parse_v2_channels,
  parse_v1_channels, parse_versioned, parse_huestream_frame,
}

abbrev pub IsByte : ℕ → Type 0
IsByte x = x < 256

-- The three colour values are 16-bit numbers.
pub record Is16Bit (c : ChannelColor) : Type 0 where
  pub r_fits : c.r < 65536
  pub g_fits : c.g < 65536
  pub b_fits : c.b < 65536

byte_at-IsByte : (bytes : List ℕ) (i : ℕ) → All IsByte bytes → byte_at bytes i < 256
byte_at-IsByte [] i h = omega arith
byte_at-IsByte (x ∷ bytes) zero h = h.0
byte_at-IsByte (x ∷ bytes) (suc i) h = byte_at-IsByte bytes i h.1

u16_at-lt : (bytes : List ℕ) (i : ℕ) → All IsByte bytes → u16_at bytes i < 65536
unfolding u16_at
u16_at-lt bytes i h = omega (arith, byte_at-IsByte bytes i h, byte_at-IsByte bytes (i + 1) h)

v2_channel-Is16Bit : (bytes : List ℕ) (o : ℕ) → All IsByte bytes → Is16Bit (v2_channel bytes o)
unfolding v2_channel
v2_channel-Is16Bit bytes o h = record {
  r_fits = u16_at-lt bytes (o + 1) h;
  g_fits = u16_at-lt bytes (o + 3) h;
  b_fits = u16_at-lt bytes (o + 5) h;
}

v1_channel-Is16Bit : (bytes : List ℕ) (o : ℕ) → All IsByte bytes → Is16Bit (v1_channel bytes o)
unfolding v1_channel
v1_channel-Is16Bit bytes o h = record {
  r_fits = u16_at-lt bytes (o + 3) h;
  g_fits = u16_at-lt bytes (o + 5) h;
  b_fits = u16_at-lt bytes (o + 7) h;
}

channel_loop-All :
    (P : ChannelColor → Type 0) (channel : ℕ → ChannelColor) (fuel size len offset : ℕ)
    → ((o : ℕ) → P (channel o))
    → All P (channel_loop fuel channel size len offset)
unfolding channel_loop
channel_loop-All P channel zero size len offset h = tt
channel_loop-All P channel (suc fuel) size len offset h =
    elim (Bool-cases (leb (offset + size) len)) [
      | inl e ↦ rw e (h offset, channel_loop-All P channel fuel size len (offset + size) h)
      | inr e ↦ rw e tt
    ]

-- On enough fuel the loop stops only because the next record does not fit.
channel_loop-exhausts :
    (channel : ℕ → ChannelColor) (fuel size len offset : ℕ)
    → offset ≤ len
    → len - offset < fuel
    → let n = length (channel_loop fuel channel (suc size) len offset) in
      (offset + n * suc size ≤ len) × (len < offset + suc n * suc size)
unfolding channel_loop
channel_loop-exhausts channel zero size len offset h f = absurd (omega arith)
channel_loop-exhausts channel (suc fuel) size len offset h f =
    elim (Bool-cases (leb (offset + suc size) len)) [
      | inl e ↦
          let fits : offset + suc size ≤ len = ground arith in
          let rest =
            channel_loop-exhausts channel fuel size len (offset + suc size) fits (omega arith) in
          rw e (omega (arith, rest.0), omega (arith, rest.1))
      | inr e ↦ rw e (omega arith, ground arith)
    ]

parse_v2_channels-count :
    (bytes : List ℕ)
    → 52 ≤ length bytes
    → length (parse_v2_channels bytes) ≡ (length bytes - 52) / 7
unfolding parse_v2_channels
parse_v2_channels-count bytes h =
    let (low, high) =
      channel_loop-exhausts (v2_channel bytes) (length bytes) 6 (length bytes) 52 h (omega arith) in
    omega arith

parse_v1_channels-count :
    (bytes : List ℕ)
    → 16 ≤ length bytes
    → length (parse_v1_channels bytes) ≡ (length bytes - 16) / 9
unfolding parse_v1_channels
parse_v1_channels-count bytes h =
    let (low, high) =
      channel_loop-exhausts (v1_channel bytes) (length bytes) 8 (length bytes) 16 h (omega arith) in
    omega arith

parse_v2_channels-Is16Bit :
    (bytes : List ℕ) → All IsByte bytes → All Is16Bit (parse_v2_channels bytes)
unfolding parse_v2_channels
parse_v2_channels-Is16Bit bytes b =
    channel_loop-All Is16Bit (v2_channel bytes) (length bytes) 7 (length bytes) 52
      (λ o. v2_channel-Is16Bit bytes o b)

parse_v1_channels-Is16Bit :
    (bytes : List ℕ) → All IsByte bytes → All Is16Bit (parse_v1_channels bytes)
unfolding parse_v1_channels
parse_v1_channels-Is16Bit bytes b =
    channel_loop-All Is16Bit (v1_channel bytes) (length bytes) 9 (length bytes) 16
      (λ o. v1_channel-Is16Bit bytes o b)

-- What the frame holds, by version.
data Accepted (bytes : List ℕ) (f : Frame) : Type 0 where
  version_2 :
      52 ≤ length bytes
      → f.api_version ≡ 2
      → f.channels ≡ parse_v2_channels bytes
      → Accepted bytes f
  version_1 :
      25 ≤ length bytes
      → f.api_version ≡ 1
      → f.channels ≡ parse_v1_channels bytes
      → Accepted bytes f

parse_versioned-Accepted :
    (bytes : List ℕ) (v cs : ℕ) (f : Frame) → parse_versioned bytes v cs ≡ some f → Accepted bytes f
unfolding parse_versioned
parse_versioned-Accepted bytes v cs f h = elim (Bool-cases (v == 2)) [
  | inl e ↦ version_2 (ground arith) (ground arith) (ground arith)
  | inr e ↦ version_1 (ground arith) (ground arith) (ground arith)
]

parse-Accepted :
    (bytes : List ℕ) (f : Frame) → parse_huestream_frame bytes ≡ some f → Accepted bytes f
unfolding parse_huestream_frame
parse-Accepted bytes f h =
    parse_versioned-Accepted bytes (byte_at bytes 9) (byte_at bytes 14) f (ground arith)

count_Accepted :
    (bytes : List ℕ) (f : Frame)
    → Accepted bytes f
    → ((f.api_version ≡ 2) × (length f.channels ≡ (length bytes - 52) / 7))
      ⊎ ((f.api_version ≡ 1) × (length f.channels ≡ (length bytes - 16) / 9))
count_Accepted bytes f (version_2 l v e) =
    inl (v, ap (λ cs. length cs) e ∙ parse_v2_channels-count bytes l)
count_Accepted bytes f (version_1 l v e) =
    inr (v, ap (λ cs. length cs) e ∙ parse_v1_channels-count bytes (omega arith))

Is16Bit-Accepted :
    (bytes : List ℕ) (f : Frame) → All IsByte bytes → Accepted bytes f → All Is16Bit f.channels
Is16Bit-Accepted bytes f b (version_2 l v e) = rw e (parse_v2_channels-Is16Bit bytes b)
Is16Bit-Accepted bytes f b (version_1 l v e) = rw e (parse_v1_channels-Is16Bit bytes b)

-- A frame that the parser accepts has version 1 or 2, and holds every whole record that stands behind
-- the header: 7 bytes each behind 52 in version 2, 9 bytes each behind 16 in version 1.
parse-count :
    (bytes : List ℕ) (f : Frame)
    → parse_huestream_frame bytes ≡ some f
    → ((f.api_version ≡ 2) × (length f.channels ≡ (length bytes - 52) / 7))
      ⊎ ((f.api_version ≡ 1) × (length f.channels ≡ (length bytes - 16) / 9))
parse-count bytes f h = count_Accepted bytes f (parse-Accepted bytes f h)

-- The colour values of an accepted frame are 16-bit numbers, if its data are bytes.
parse-Is16Bit :
    (bytes : List ℕ) (f : Frame)
    → All IsByte bytes
    → parse_huestream_frame bytes ≡ some f
    → All Is16Bit f.channels
parse-Is16Bit bytes f b h = Is16Bit-Accepted bytes f b (parse-Accepted bytes f h)
