-- ===== src/Worm/Header/Slices.antt =====
-- Where each field of a header stands in its bytes.
use hyperkitty_constraint_ds.Prelude.{
  ℕ, ◌+◌, ◌≡◌, refl, ap, ◌∙◌, [], ◌∷◌, ◌++◌, length, length-append, append_assoc, arith,
}
use hyperkitty_constraint_ds.Worm.Bytes.{
  Bytes, to_be_bytes, slice, slice-first, slice-append, length-to_be_bytes,
}
use hyperkitty_constraint_ds.Worm.Header.{WormHeader, IsHeader, header_size, to_bytes}

-- The bytes from each field on, in front of others.
module _ (h : WormHeader) (rest : Bytes) where
  abbrev pub from_signature : Bytes
  from_signature = h.signature ++ rest

  abbrev pub from_content : Bytes
  from_content = h.content_hash ++ from_signature

  abbrev pub from_previous : Bytes
  from_previous = h.previous_hash ++ from_content

  abbrev pub from_timestamp : Bytes
  from_timestamp = to_be_bytes 8 h.timestamp_ns ++ from_previous

  abbrev pub from_metadata : Bytes
  from_metadata = to_be_bytes 4 h.metadata_length ++ from_timestamp

  abbrev pub from_data : Bytes
  from_data = to_be_bytes 4 h.data_length ++ from_metadata

  abbrev pub from_event : Bytes
  from_event = to_be_bytes 2 h.event_length ++ from_data

  abbrev pub from_flags : Bytes
  from_flags = (h.flags ∷ []) ++ from_event

  abbrev pub from_version : Bytes
  from_version = (h.version ∷ []) ++ from_flags

  abbrev pub from_magic : Bytes
  from_magic = h.magic ++ from_version

pub to_bytes-append : (h : WormHeader) (rest : Bytes) → to_bytes h ++ rest ≡ from_magic h rest
unfolding to_bytes
to_bytes-append h rest = simp append_assoc

pub length-to_bytes : (h : WormHeader) → IsHeader h → length (to_bytes h) ≡ header_size
unfolding to_bytes
length-to_bytes h v =
    let magic_length : length h.magic ≡ 4 = ap length v.is_magic in
    simp (length-append, length-to_be_bytes)
      (omega (arith, magic_length, v.length_previous, v.length_content, v.length_signature))

-- The slices behind each field, and the slice of each field.
module _ (h : WormHeader) (v : IsHeader h) (rest : Bytes) where
  length_magic : length (h.magic) ≡ 4
  length_magic = ap length v.is_magic

  pub slice_magic : slice 0 4 (from_magic h rest) ≡ h.magic
  slice_magic = slice-first (h.magic) (from_version h rest) 4 length_magic

  skip_magic :
      (m n o : ℕ) → m ≡ 4 + o → slice m n (from_magic h rest) ≡ slice o n (from_version h rest)
  skip_magic m n o e =
      slice-append m n o (h.magic) (from_version h rest) (omega (arith, length_magic))

  length_version : length (h.version ∷ []) ≡ 1
  length_version = refl

  pub slice_version : slice 4 1 (from_magic h rest) ≡ h.version ∷ []
  slice_version =
      skip_magic 4 1 0 refl ∙ slice-first (h.version ∷ []) (from_flags h rest) 1 length_version

  skip_version :
      (m n o : ℕ) → m ≡ 5 + o → slice m n (from_magic h rest) ≡ slice o n (from_flags h rest)
  skip_version m n o e =
      skip_magic m n (1 + o) (omega arith)
      ∙ slice-append (1 + o) n o (h.version ∷ []) (from_flags h rest)
          (omega (arith, length_version))

  length_flags : length (h.flags ∷ []) ≡ 1
  length_flags = refl

  pub slice_flags : slice 5 1 (from_magic h rest) ≡ h.flags ∷ []
  slice_flags =
      skip_version 5 1 0 refl ∙ slice-first (h.flags ∷ []) (from_event h rest) 1 length_flags

  skip_flags :
      (m n o : ℕ) → m ≡ 6 + o → slice m n (from_magic h rest) ≡ slice o n (from_event h rest)
  skip_flags m n o e =
      skip_version m n (1 + o) (omega arith)
      ∙ slice-append (1 + o) n o (h.flags ∷ []) (from_event h rest) (omega (arith, length_flags))

  length_event : length (to_be_bytes 2 h.event_length) ≡ 2
  length_event = length-to_be_bytes 2 _

  pub slice_event : slice 6 2 (from_magic h rest) ≡ to_be_bytes 2 h.event_length
  slice_event =
      skip_flags 6 2 0 refl
      ∙ slice-first (to_be_bytes 2 h.event_length) (from_data h rest) 2 length_event

  skip_event :
      (m n o : ℕ) → m ≡ 8 + o → slice m n (from_magic h rest) ≡ slice o n (from_data h rest)
  skip_event m n o e =
      skip_flags m n (2 + o) (omega arith)
      ∙ slice-append (2 + o) n o (to_be_bytes 2 h.event_length) (from_data h rest)
          (omega (arith, length_event))

  length_data : length (to_be_bytes 4 h.data_length) ≡ 4
  length_data = length-to_be_bytes 4 _

  pub slice_data : slice 8 4 (from_magic h rest) ≡ to_be_bytes 4 h.data_length
  slice_data =
      skip_event 8 4 0 refl
      ∙ slice-first (to_be_bytes 4 h.data_length) (from_metadata h rest) 4 length_data

  skip_data :
      (m n o : ℕ) → m ≡ 12 + o → slice m n (from_magic h rest) ≡ slice o n (from_metadata h rest)
  skip_data m n o e =
      skip_event m n (4 + o) (omega arith)
      ∙ slice-append (4 + o) n o (to_be_bytes 4 h.data_length) (from_metadata h rest)
          (omega (arith, length_data))

  length_metadata : length (to_be_bytes 4 h.metadata_length) ≡ 4
  length_metadata = length-to_be_bytes 4 _

  pub slice_metadata : slice 12 4 (from_magic h rest) ≡ to_be_bytes 4 h.metadata_length
  slice_metadata =
      skip_data 12 4 0 refl
      ∙ slice-first (to_be_bytes 4 h.metadata_length) (from_timestamp h rest) 4 length_metadata

  skip_metadata :
      (m n o : ℕ) → m ≡ 16 + o → slice m n (from_magic h rest) ≡ slice o n (from_timestamp h rest)
  skip_metadata m n o e =
      skip_data m n (4 + o) (omega arith)
      ∙ slice-append (4 + o) n o (to_be_bytes 4 h.metadata_length) (from_timestamp h rest)
          (omega (arith, length_metadata))

  length_timestamp : length (to_be_bytes 8 h.timestamp_ns) ≡ 8
  length_timestamp = length-to_be_bytes 8 _

  pub slice_timestamp : slice 16 8 (from_magic h rest) ≡ to_be_bytes 8 h.timestamp_ns
  slice_timestamp =
      skip_metadata 16 8 0 refl
      ∙ slice-first (to_be_bytes 8 h.timestamp_ns) (from_previous h rest) 8 length_timestamp

  skip_timestamp :
      (m n o : ℕ) → m ≡ 24 + o → slice m n (from_magic h rest) ≡ slice o n (from_previous h rest)
  skip_timestamp m n o e =
      skip_metadata m n (8 + o) (omega arith)
      ∙ slice-append (8 + o) n o (to_be_bytes 8 h.timestamp_ns) (from_previous h rest)
          (omega (arith, length_timestamp))

  length_previous : length (h.previous_hash) ≡ 32
  length_previous = v.length_previous

  pub slice_previous : slice 24 32 (from_magic h rest) ≡ h.previous_hash
  slice_previous =
      skip_timestamp 24 32 0 refl
      ∙ slice-first (h.previous_hash) (from_content h rest) 32 length_previous

  skip_previous :
      (m n o : ℕ) → m ≡ 56 + o → slice m n (from_magic h rest) ≡ slice o n (from_content h rest)
  skip_previous m n o e =
      skip_timestamp m n (32 + o) (omega arith)
      ∙ slice-append (32 + o) n o (h.previous_hash) (from_content h rest)
          (omega (arith, length_previous))

  length_content : length (h.content_hash) ≡ 32
  length_content = v.length_content

  pub slice_content : slice 56 32 (from_magic h rest) ≡ h.content_hash
  slice_content =
      skip_previous 56 32 0 refl
      ∙ slice-first (h.content_hash) (from_signature h rest) 32 length_content

  skip_content :
      (m n o : ℕ) → m ≡ 88 + o → slice m n (from_magic h rest) ≡ slice o n (from_signature h rest)
  skip_content m n o e =
      skip_previous m n (32 + o) (omega arith)
      ∙ slice-append (32 + o) n o (h.content_hash) (from_signature h rest)
          (omega (arith, length_content))

  length_signature : length (h.signature) ≡ 64
  length_signature = v.length_signature

  pub slice_signature : slice 88 64 (from_magic h rest) ≡ h.signature
  slice_signature = skip_content 88 64 0 refl ∙ slice-first (h.signature) rest 64 length_signature
