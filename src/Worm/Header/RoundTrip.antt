-- ===== src/Worm/Header/RoundTrip.antt =====
-- The header that is read back from its bytes.
use hyperkitty_constraint_ds.Prelude.{
  ℕ, ◌≡◌, refl, ap, ◌∙◌, [], ◌∷◌, ◌++◌, length, length-append, text_eq, text_eq_refl, true, ◌≤◌,
  arith,
}
use hyperkitty_constraint_ds.Core.{Result.ok}
use hyperkitty_constraint_ds.Worm.Bytes.{Bytes, from_be_bytes, from_be, from_be_bytes-to_be_bytes}
use hyperkitty_constraint_ds.Worm.Header.{
  WormHeader, IsHeader, magic_bytes, header_size, to_bytes, from_bytes, check_header, read_fields,
}
use hyperkitty_constraint_ds.Worm.Header.Slices.{
  from_magic, to_bytes-append, length-to_bytes, slice_magic, slice_version, slice_flags,
  slice_event, slice_data, slice_metadata, slice_timestamp, slice_previous, slice_content,
  slice_signature,
}

from_be_bytes-one : (n : ℕ) → from_be_bytes (n ∷ []) ≡ n
unfolding from_be_bytes from_be
from_be_bytes-one n = omega arith

read_fields-from_magic :
    (h : WormHeader) → IsHeader h → (rest : Bytes) → read_fields (from_magic h rest) ≡ h
unfolding read_fields
read_fields-from_magic h v rest =
    rw
      (
        slice_magic h v rest,
        slice_version h v rest,
        slice_flags h v rest,
        slice_event h v rest,
        slice_data h v rest,
        slice_metadata h v rest,
        slice_timestamp h v rest,
        slice_previous h v rest,
        slice_content h v rest,
        slice_signature h v rest,
        from_be_bytes-one h.version,
        from_be_bytes-one h.flags,
        from_be_bytes-to_be_bytes 2 h.event_length v.fits_event,
        from_be_bytes-to_be_bytes 4 h.data_length v.fits_data,
        from_be_bytes-to_be_bytes 4 h.metadata_length v.fits_metadata,
        from_be_bytes-to_be_bytes 8 h.timestamp_ns v.fits_timestamp,
      )
      refl

check_header-IsHeader :
    (h : WormHeader) (n : ℕ) → IsHeader h → header_size ≤ n → check_header n h ≡ ok h
unfolding check_header
check_header-IsHeader h n v b =
    let same : text_eq h.magic magic_bytes ≡ true = rw v.is_magic (text_eq_refl magic_bytes) in
    ground (arith, same, v.is_version)

-- The bytes of a well-formed header, with anything behind them, are read back as that header.
pub from_bytes-to_bytes :
    (h : WormHeader) (rest : Bytes) → IsHeader h → from_bytes (to_bytes h ++ rest) ≡ ok h
unfolding from_bytes
from_bytes-to_bytes h rest v =
    let fields : read_fields (to_bytes h ++ rest) ≡ h =
      ap read_fields (to_bytes-append h rest) ∙ read_fields-from_magic h v rest in
    ap (check_header (length (to_bytes h ++ rest))) fields
    ∙ check_header-IsHeader h (length (to_bytes h ++ rest)) v
        (omega (arith, length-append (to_bytes h) rest, length-to_bytes h v))
