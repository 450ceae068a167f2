-- ===== src/Core/Control/Answers.antt =====
-- The answer to a control request, independently of the code of src/control.c.
use ps_libmctp_win.Prelude.{
  ℕ, ◌+◌, ◌*◌, Option, none, some, true, false, List, [], ◌∷◌, ◌++◌, length, bit_and, ltb, ◌==◌,
  ◌||◌, if◌then◌else◌,
}
use ps_libmctp_win.Header.{flag_bits}
use ps_libmctp_win.Core.State.{Bus}
use ps_libmctp_win.Core.Transmit.Fragments.{View}

-- The completion code, the bytes behind it, and the EID that the endpoint then has.
pub record Answer : Type 0 where
  pub code : ℕ
  pub content : List ℕ
  pub eid : ℕ

-- An error: the EID is as it was.
abbrev pub refuses : ℕ → ℕ → Answer
refuses code eid = record { code = code; content = []; eid = eid }

-- Set Endpoint ID: set (0) and force (1) take an EID that is neither reserved nor the broadcast one.
unfoldable pub assigns : ℕ → List ℕ → Answer
assigns eid (op ∷ new ∷ []) =
    if bit_and op 3 == 0 || bit_and op 3 == 1
    then (if ltb new 8 || new == 255
        then refuses 2 eid
        else record { code = 0; content = 0 ∷ new ∷ 0 ∷ []; eid = new })
    else refuses 2 eid
assigns eid _ = refuses 3 eid

-- Get Endpoint ID: a simple endpoint with a static EID.
unfoldable pub reports_eid : ℕ → List ℕ → Answer
reports_eid eid [] = record { code = 0; content = eid ∷ 1 ∷ 0 ∷ []; eid = eid }
reports_eid eid _ = refuses 3 eid

-- A version in four bytes: its major and minor number, each in the low half of a byte of which the
-- upper half is left out (15), its update number, or 255 where it has none, and no alpha part.
unfoldable pub version : ℕ → ℕ → Option ℕ → List ℕ
version major minor none = (15 * 16 + major) ∷ (15 * 16 + minor) ∷ 255 ∷ 0 ∷ []
version major minor (some update) =
    (15 * 16 + major) ∷ (15 * 16 + minor) ∷ (15 * 16 + update) ∷ 0 ∷ []

-- The versions 1.0, 1.1, 1.2 and 1.3.3.
unfoldable pub versions : List ℕ
versions = version 1 0 none ++ version 1 1 none ++ version 1 2 none ++ version 1 3 (some 3)

-- Get MCTP Version: the base specification and the control protocol only.
unfoldable pub reports_versions : ℕ → List ℕ → Answer
reports_versions eid (type ∷ []) =
    if type == 0 || type == 255
    then record { code = 0; content = 4 ∷ versions; eid = eid }
    else refuses 128 eid
reports_versions eid _ = refuses 3 eid

-- Get Message Type Support
unfoldable pub reports_types : ℕ → List ℕ → List ℕ → Answer
reports_types eid types [] = record { code = 0; content = length types ∷ types; eid = eid }
reports_types eid types _ = refuses 3 eid

-- The answer of an endpoint, by its EID and its message types, to a command with its data.
unfoldable pub answer : ℕ → List ℕ → ℕ → List ℕ → Answer
answer eid types command body =
    if command == 1
    then assigns eid body
    else if command == 2
    then reports_eid eid body
    else if command == 4
    then reports_versions eid body
    else if command == 5
    then reports_types eid types body
    else refuses 5 eid

-- The response to a request, with the requester's instance number and tag, as the one packet that
-- carries it.
abbrev pub reply : Bus → ℕ → ℕ → ℕ → ℕ → Answer → View
reply bus dest tag inst command a = record {
  src = a.eid;
  dest = dest;
  tag_owner = false;
  tag = tag;
  flags = flag_bits true true;
  seq = bus.tx_seq;
  payload = 0 ∷ bit_and inst 31 ∷ command ∷ a.code ∷ a.content;
}
