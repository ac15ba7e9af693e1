-- ===== src/Tests/Unit/Chain.antt =====
-- src/chain.rs, `mod tests`.
use oracle_qa.Prelude.{
  ◌≡◌, refl, Bool, true, false, ◌&&◌, Bytes, List, [], ◌∷◌, ◌++◌, none, some, bytes_eq,
  if◌then◌else◌, take, drop,
}
use oracle_qa.Prelude.Text.{◌⊹◌, str_eq, trim, strip_prefix}
use oracle_qa.External.{Deps, DeliverySubmitted}
use oracle_qa.Samples.{sample_deps, repeat}
use oracle_qa.Monitor.Instructions.{event_of_line, parse_delivery_events_from_logs}

abbrev event : DeliverySubmitted
event = record { payment_uid = repeat 7 32; delivery_hash = repeat 8 32 }

abbrev bytes_of : DeliverySubmitted → Bytes
bytes_of ev = ev.payment_uid ++ ev.delivery_hash

-- The layout of an event is its two fields that are read, one after the other, and its base-64 text is
-- a fixed one.
abbrev deps : Deps
deps = record sample_deps {
  wire = record sample_deps.wire {
    base64_decode = λ t. if str_eq t "ZXZlbnQ=" then some (bytes_of event) else none;
    event_size = 64;
    event_of = λ raw. some (record { payment_uid = take 32 raw; delivery_hash = drop 32 raw });
  };
}

abbrev is_one : DeliverySubmitted → List DeliverySubmitted → Bool
is_one ev [] = false
is_one ev (parsed ∷ []) =
    bytes_eq parsed.payment_uid ev.payment_uid && bytes_eq parsed.delivery_hash ev.delivery_hash
is_one ev (parsed ∷ more ∷ rest) = false

abbrev parse_delivery_event_roundtrip : Bool
parse_delivery_event_roundtrip =
    is_one event (parse_delivery_events_from_logs deps (("Program data: " ⊹ "ZXZlbnQ=") ∷ []))

all_pass : parse_delivery_event_roundtrip ≡ true
unfolding parse_delivery_events_from_logs event_of_line trim strip_prefix
all_pass = refl
