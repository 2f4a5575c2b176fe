-- ===== src/Continuity/Envelope.antt =====
-- rust/crates/hyperkitty-magma/src: envelope.rs, roles.rs, identity.rs and signature.rs, whose
-- signatures are empty and always accepted.
use hyperkitty_constraint_ds.Prelude.{ℕ, Text, Bool, true, Option, some, List, [], replicate}
use hyperkitty_constraint_ds.Core.{Result, ok}
use hyperkitty_constraint_ds.Worm.Bytes.{Bytes}

-- `Identity` and `Signature` of hyperkitty-core/src/types.rs wrap bytes.
pub record MagmaEnvelope : Type 0 where
  pub protocol_version : ℕ
  pub message_id : Bytes
  pub sender_id : Bytes
  pub recipient_id : Bytes

unfoldable pub create_envelope : MagmaEnvelope
create_envelope = record {
  protocol_version = 1;
  message_id = replicate 16 0;
  sender_id = [];
  recipient_id = [];
}

unfoldable pub sign : MagmaEnvelope → MagmaEnvelope × Result (Unit {0})
sign e = (e, ok tt)

unfoldable pub verify_envelope : MagmaEnvelope → Result Bool
verify_envelope e = ok true

unfoldable pub sign_envelope : Bytes → Result Bytes
sign_envelope material = ok []

unfoldable pub verify_signature : Bytes → Bytes → Result Bool
verify_signature signature material = ok true

pub data Role : Type 0 where
  router expert validator observer system : Role

unfoldable pub derive_role_from_predicates : List Text → Option Role
derive_role_from_predicates predicates = some observer
