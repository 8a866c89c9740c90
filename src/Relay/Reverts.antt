-- ===== src/Relay/Reverts.antt =====
-- Why a simulation failed: `revertReason` and `isTransportFailure` of src/relay/relay.service.ts, over the
-- cause chain of an error.
use numera_backend.Prelude.{
  ℕ, zero, suc, Bool, true, false, ◌&&◌, ◌||◌, Option, none, some, List, [], ◌∷◌, Text, codes,
  to_lower, text_eq, leb, length, take, if◌then◌else◌,
}

-- An error with its causes: the `data` field of each (none unless it is a string), and the message.
pub record ChainError : Type 0 where
  pub causes : List (Option Text)
  pub message : Text

unfoldable pub starts_with : Text → Text → Bool
starts_with [] s = true
starts_with (c ∷ p) [] = false
starts_with (c ∷ p) (d ∷ s) = text_eq (c ∷ []) (d ∷ []) && starts_with p s

-- `text.includes(piece)`.
unfoldable pub includes : Text → Text → Bool
unfolding starts_with
includes piece [] = starts_with piece []
includes piece (c ∷ s) = starts_with piece (c ∷ s) || includes piece s

-- `data.startsWith('0x') && data.length >= 10`.
unfoldable pub has_selector : Option Text → Bool
unfolding starts_with
has_selector none = false
has_selector (some data') = starts_with (codes "0x") data' && leb 10 (length data')

-- The first revert data among the first `depth` causes, as the loop of `revertReason` finds it.
unfoldable pub revert_data : ℕ → List (Option Text) → Option Text
unfolding has_selector
revert_data zero causes = none
revert_data (suc depth) [] = none
revert_data (suc depth) (none ∷ causes) = revert_data depth causes
revert_data (suc depth) (some d ∷ causes) =
    let rest = revert_data depth causes in if has_selector (some d) then some d else rest

-- The loop of `isTransportFailure`: whether one of the first `depth` causes carries revert data.
unfoldable pub carries_data : ℕ → List (Option Text) → Bool
unfolding has_selector
carries_data zero causes = false
carries_data (suc depth) [] = false
carries_data (suc depth) (data' ∷ causes) =
    let rest = carries_data depth causes in if has_selector data' then true else rest

pub data RevertReason : Type 0 where
  -- An entry of the table of known selectors.
  known : Text → RevertReason
  unrecognised : Text → RevertReason
  message_only : Text → RevertReason

abbrev pub known_selectors : List Text
known_selectors =
    codes "0x71c4efed"
    ∷ codes "0x38fcec43"
    ∷ codes "0xfb8f41b2"
    ∷ codes "0xe450d38c"
    ∷ codes "0x5bd17307"
    ∷ codes "0x290e4209"
    ∷ codes "0x2ec1bf71"
    ∷ codes "0x966a32f7"
    ∷ codes "0x9dc30b8e"
    ∷ codes "0xdfd92da0"
    ∷ codes "0xf5ccd95e"
    ∷ codes "0xeac3a0ea"
    ∷ []

unfoldable pub includes_text : List Text → Text → Bool
includes_text [] t = false
includes_text (x ∷ xs) t = text_eq x t || includes_text xs t

-- `text.split('\n')[0]`.
unfoldable pub first_line : Text → Text
first_line [] = []
first_line (c ∷ s) = if text_eq (c ∷ []) (10 ∷ []) then [] else c ∷ first_line s

unfoldable pub revert_reason : ChainError → RevertReason
revert_reason e = elim (revert_data 8 e.causes) [
  | none ↦ message_only (first_line e.message)
  | some d ↦
      let selector = to_lower (take 10 d) in
      if includes_text known_selectors selector then known selector else unrecognised selector
]

unfoldable pub has_transport_text : Text → Bool
unfolding includes
has_transport_text text =
    includes (codes "rpc request failed") text
    || (includes (codes "http request failed") text
        || (includes (codes "timed out") text
            || (includes (codes "fetch failed") text
                || (includes (codes "socket") text || includes (codes "econnreset") text))))

unfoldable pub is_transport_failure : ChainError → Bool
unfolding carries_data has_transport_text
is_transport_failure e =
    if carries_data 8 e.causes then false else has_transport_text (to_lower e.message)
