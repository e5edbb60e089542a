-- ===== src/AgentUpdate/Examples.antt =====
-- The theorems on internal/agentupdate at an update from 1.2.0 to 1.10.0. A file holds the transaction
-- itself here, as a text of 300 bytes, or what is left of a longer one.
use mossward.Common.{
  ◌≡◌, ◌↔◌, refl, true, false, [], some, none, Option, ℕ, ◌≤◌, leb, if◌then◌else◌, arith, Text,
  codes, before, ok, err, pos, text_eq, split_dots,
}
use mossward.AgentUpdate.Version.{ParsedVersion, parse_version, version_pattern, cut_dash, atoi}
use mossward.RelayTransport.Protocol.{hex_decode, hex_digit}
use mossward.AgentUpdate.Transaction.{
  awaiting_health, committed, Transaction, missed_deadline, Files, content, validate,
  requires_rollback, load_transaction, confirm_healthy,
}
use mossward.AgentUpdate.Confirmation.{
  confirm_healthy_commits, confirm_healthy-load, confirm_healthy_missed,
}

abbrev old : Text
old = codes "1.2.0"

abbrev new : Text
new = codes "1.10.0"

abbrev parsed_old : ParsedVersion
parsed_old = record { major = 1; minor = 2; patch = 0; prerelease = [] }

abbrev parsed_new : ParsedVersion
parsed_new = record { major = 1; minor = 10; patch = 0; prerelease = [] }

old_parses : parse_version old ≡ some parsed_old
unfolding parse_version version_pattern cut_dash split_dots atoi
old_parses = refl

new_parses : parse_version new ≡ some parsed_new
unfolding parse_version version_pattern cut_dash split_dots atoi
new_parses = refl

abbrev text_size : Option Transaction → ℕ
text_size none = 0
text_size (some t) = 300

abbrev limit_to : ℕ → Option Transaction → Option Transaction
limit_to n j = if leb (text_size j) n then j else none

limit_to-whole : (n : ℕ) (j : Option Transaction) → text_size j ≤ n → limit_to n j ≡ j
limit_to-whole n j h = ground (arith, h)

abbrev memory : Files (Option Transaction)
memory = record {
  base = λ file. file;
  encode = λ t. some t;
  decode = λ j. j;
  size = text_size;
  limit = limit_to;
  limit-whole = limit_to-whole;
  decode-encode = λ t. refl;
}

-- 64 hexadecimal digits.
abbrev digest : Text
digest = codes "0123456789abcdef0123456789abcdef0123456789abcdef0123456789abcdef"

abbrev pending : Transaction
pending = record {
  schema_version = pos 1;
  state = awaiting_health;
  previous = record {
    version = old;
    sha256 = digest;
    size = pos 9;
    file = codes "known-good-1.2.0";
  };
  target_version = new;
  target_sha256 = digest;
  target_size = pos 10;
  started_at = 100;
  health_deadline = 1000;
}

loads : load_transaction memory (content (some pending)) ≡ ok pending
unfolding load_transaction validate version_pattern cut_dash split_dots hex_decode hex_digit text_eq
loads = refl

confirm_healthy_commits_example :
    (((confirm_healthy true memory (content (some pending)) new 500).1 ≡ ok tt)
      ↔ ((text_eq new new ≡ true) × (before 500 1000 ≡ true) × (true ≡ true)))
    × ((confirm_healthy true memory (content (some pending)) new 500).1 ≡ ok tt
        → (confirm_healthy true memory (content (some pending)) new 500).0
          ≡ content (some (record pending { state = committed })))
confirm_healthy_commits_example =
    confirm_healthy_commits memory (content (some pending)) new 500 pending loads refl true

confirms : (confirm_healthy true memory (content (some pending)) new 500).1 ≡ ok tt
unfolding confirm_healthy load_transaction validate version_pattern cut_dash split_dots hex_decode
    hex_digit text_eq
confirms = refl

confirm_healthy-load_example :
    (load_transaction memory (confirm_healthy true memory (content (some pending)) new 500).0
      ≡ ok (record pending { state = committed }))
    × (requires_rollback (record pending { state = committed }) 2000 ≡ false)
confirm_healthy-load_example =
    confirm_healthy-load memory (content (some pending)) new 500 pending loads refl true 2000
      (omega arith) confirms

same_version : text_eq new new ≡ true
unfolding text_eq
same_version = refl

confirm_healthy_missed_example :
    ((confirm_healthy false memory (content (some pending)) new 1000).1 ≡ err missed_deadline)
    × ((t' : Transaction) × (load_transaction memory
            (confirm_healthy false memory (content (some pending)) new 1000).0
          ≡ ok t')
        × (requires_rollback t' 2000 ≡ true))
confirm_healthy_missed_example =
    confirm_healthy_missed memory (content (some pending)) new 1000 pending loads refl false 2000
      (omega arith) same_version (omega arith) (omega arith)
