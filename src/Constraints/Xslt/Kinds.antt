-- ===== src/Constraints/Xslt/Kinds.antt =====
-- rust/crates/hyperkitty-constraints/src/xslt_processor.rs: the enums of a formalization and the
-- strings that name their values.
use hyperkitty_constraint_ds.Prelude.{
  ◌≡◌, refl, sym, Text, codes, text_eq, text_eq-eq, if◌then◌else◌, if_intro,
}

pub data ConstraintKind : Type 0 where
  prohibition technology boolean_algebra refinement_type graph_invariant : ConstraintKind
  transformation truth proof_artifact execution_order acceptance : ConstraintKind
  structure component_contract general_constraint : ConstraintKind

unfoldable pub kind_as_str : ConstraintKind → Text
kind_as_str prohibition = codes "PROHIBITION"
kind_as_str technology = codes "TECHNOLOGY"
kind_as_str boolean_algebra = codes "BOOLEAN_ALGEBRA"
kind_as_str refinement_type = codes "REFINEMENT_TYPE"
kind_as_str graph_invariant = codes "GRAPH_INVARIANT"
kind_as_str transformation = codes "TRANSFORMATION"
kind_as_str truth = codes "TRUTH"
kind_as_str proof_artifact = codes "PROOF_ARTIFACT"
kind_as_str execution_order = codes "EXECUTION_ORDER"
kind_as_str acceptance = codes "ACCEPTANCE"
kind_as_str structure = codes "STRUCTURE"
kind_as_str component_contract = codes "COMPONENT_CONTRACT"
kind_as_str general_constraint = codes "GENERAL_CONSTRAINT"

unfoldable pub kind_from_str : Text → ConstraintKind
unfolding text_eq
kind_from_str s =
    if text_eq s (codes "PROHIBITION")
    then prohibition
    else if text_eq s (codes "TECHNOLOGY")
    then technology
    else if text_eq s (codes "BOOLEAN_ALGEBRA")
    then boolean_algebra
    else if text_eq s (codes "REFINEMENT_TYPE")
    then refinement_type
    else if text_eq s (codes "GRAPH_INVARIANT")
    then graph_invariant
    else if text_eq s (codes "TRANSFORMATION")
    then transformation
    else if text_eq s (codes "TRUTH")
    then truth
    else if text_eq s (codes "PROOF_ARTIFACT")
    then proof_artifact
    else if text_eq s (codes "EXECUTION_ORDER")
    then execution_order
    else if text_eq s (codes "ACCEPTANCE")
    then acceptance
    else if text_eq s (codes "STRUCTURE")
    then structure
    else if text_eq s (codes "COMPONENT_CONTRACT")
    then component_contract
    else general_constraint

pub data Polarity : Type 0 where
  positive negative neutral : Polarity

unfoldable pub polarity_as_str : Polarity → Text
polarity_as_str positive = codes "POSITIVE"
polarity_as_str negative = codes "NEGATIVE"
polarity_as_str neutral = codes "NEUTRAL"

unfoldable pub polarity_from_str : Text → Polarity
unfolding text_eq
polarity_from_str s =
    if text_eq s (codes "POSITIVE")
    then positive
    else if text_eq s (codes "NEGATIVE")
    then negative
    else neutral

pub data ProverStatus : Type 0 where
  generated_unverified compiled_unverified verified failed : ProverStatus

unfoldable pub status_as_str : ProverStatus → Text
status_as_str generated_unverified = codes "GENERATED_UNVERIFIED"
status_as_str compiled_unverified = codes "COMPILED_UNVERIFIED"
status_as_str verified = codes "VERIFIED"
status_as_str failed = codes "FAILED"

unfoldable pub status_from_str : Text → ProverStatus
unfolding text_eq
status_from_str s =
    if text_eq s (codes "GENERATED_UNVERIFIED")
    then generated_unverified
    else if text_eq s (codes "COMPILED_UNVERIFIED")
    then compiled_unverified
    else if text_eq s (codes "VERIFIED")
    then verified
    else failed

pub data CorrespondenceStatus : Type 0 where
  unresolved pending validated failed_correspondence : CorrespondenceStatus

unfoldable pub correspondence_as_str : CorrespondenceStatus → Text
correspondence_as_str unresolved = codes "UNRESOLVED"
correspondence_as_str pending = codes "PENDING"
correspondence_as_str validated = codes "VALIDATED"
correspondence_as_str failed_correspondence = codes "FAILED"

kind_from_str-as_str : (k : ConstraintKind) → kind_from_str (kind_as_str k) ≡ k
unfolding kind_from_str kind_as_str
kind_from_str-as_str prohibition = refl
kind_from_str-as_str technology = refl
kind_from_str-as_str boolean_algebra = refl
kind_from_str-as_str refinement_type = refl
kind_from_str-as_str graph_invariant = refl
kind_from_str-as_str transformation = refl
kind_from_str-as_str truth = refl
kind_from_str-as_str proof_artifact = refl
kind_from_str-as_str execution_order = refl
kind_from_str-as_str acceptance = refl
kind_from_str-as_str structure = refl
kind_from_str-as_str component_contract = refl
kind_from_str-as_str general_constraint = refl

-- A value that a text names, or the one that stands for all other texts.
pub data NamedOr {A : Type 0} (name : A → Text) (other : A) (s : Text) (a : A) : Type 0 where
  is_named : name a ≡ s → NamedOr name other s a
  is_other : a ≡ other → NamedOr name other s a

NamedOr-first :
    {A : Type 0} {name : A → Text} {other : A} (s : Text) (a : A) {rest : A}
    → NamedOr name other s rest
    → NamedOr name other s (if text_eq s (name a) then a else rest)
NamedOr-first {name = name} {other = other} s a h =
    if_intro (NamedOr name other s) (text_eq s (name a))
      (λ e. is_named (sym (text_eq-eq s (name a) e))) (λ n. h)

kind_from_str-NamedOr : (s : Text) → NamedOr kind_as_str general_constraint s (kind_from_str s)
unfolding kind_from_str kind_as_str
kind_from_str-NamedOr s = NamedOr-first s prohibition (
    NamedOr-first s technology (
      NamedOr-first s boolean_algebra (
        NamedOr-first s refinement_type (
          NamedOr-first s graph_invariant (
            NamedOr-first s transformation (
              NamedOr-first s truth (
                NamedOr-first s proof_artifact (
                  NamedOr-first s execution_order (
                    NamedOr-first s acceptance (
                      NamedOr-first s structure
                        (NamedOr-first s component_contract (is_other refl))))))))))))

polarity_from_str-as_str : (k : Polarity) → polarity_from_str (polarity_as_str k) ≡ k
unfolding polarity_from_str polarity_as_str
polarity_from_str-as_str positive = refl
polarity_from_str-as_str negative = refl
polarity_from_str-as_str neutral = refl

polarity_from_str-NamedOr : (s : Text) → NamedOr polarity_as_str neutral s (polarity_from_str s)
unfolding polarity_from_str polarity_as_str
polarity_from_str-NamedOr s = NamedOr-first s positive (NamedOr-first s negative (is_other refl))

status_from_str-as_str : (k : ProverStatus) → status_from_str (status_as_str k) ≡ k
unfolding status_from_str status_as_str
status_from_str-as_str generated_unverified = refl
status_from_str-as_str compiled_unverified = refl
status_from_str-as_str verified = refl
status_from_str-as_str failed = refl

status_from_str-NamedOr : (s : Text) → NamedOr status_as_str failed s (status_from_str s)
unfolding status_from_str status_as_str
status_from_str-NamedOr s =
    NamedOr-first s generated_unverified
      (NamedOr-first s compiled_unverified (NamedOr-first s verified (is_other refl)))

-- The names of the kinds, the polarities and the prover statuses are read back as the values they
-- name, and any other text as the general kind, the neutral polarity or the failed status.
pub from_str-as_str :
    (k : ConstraintKind) (p : Polarity) (t : ProverStatus) (s : Text)
    → (kind_from_str (kind_as_str k) ≡ k)
      × (polarity_from_str (polarity_as_str p) ≡ p)
      × (status_from_str (status_as_str t) ≡ t)
      × NamedOr kind_as_str general_constraint s (kind_from_str s)
      × NamedOr polarity_as_str neutral s (polarity_from_str s)
      × NamedOr status_as_str failed s (status_from_str s)
from_str-as_str k p t s = (
  kind_from_str-as_str k,
  polarity_from_str-as_str p,
  status_from_str-as_str t,
  kind_from_str-NamedOr s,
  polarity_from_str-NamedOr s,
  status_from_str-NamedOr s,
)
