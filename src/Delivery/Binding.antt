-- ===== src/Delivery/Binding.antt =====
-- The digests that delivery evidence is bound to, in vibe_guide/remote_delivery.py.
use Prim.Native.Char.{code}
use vibe_guide_automation.Common.{
  ℕ, zero, suc, String, Bool, true, false, ◌&&◌, ◌||◌, Option, none, some, leb, nat_eq, ◌==◌,
  if◌then◌else◌,
}
use vibe_guide_automation.Json.{Value, Members, no_member, member, object}
use vibe_guide_automation.Delivery.{DigestBinding, Snapshot}

-- authorization.remote_git_actions == "allow"
abbrev pub remote_delivery_required : Option String → Bool
remote_delivery_required none = false
remote_delivery_required (some switch) = switch == "allow"

-- {key: value for key, value in evidence.items() if key != "history"}
abbrev pub without_history : Members → Members
without_history no_member = no_member
without_history (member k v ms) =
    let rest = without_history ms in if k == "history" then rest else member k v rest

-- `digest` stands for `canonical_json_digest`: SHA-256 of the JSON text.
abbrev pub integration_evidence_digest : (Value → String) → Members → String
integration_evidence_digest digest no_member = ""
integration_evidence_digest digest (member k v ms) =
    digest (object (without_history (member k v ms)))

abbrev pub delivery_binding : (Value → String) → Snapshot → DigestBinding
delivery_binding digest s = record {
  authorization_digest = s.authorization_digest;
  node_contract_digest = s.node_contract_digest;
  topology_digest = s.topology_digest;
  integration_digest = integration_evidence_digest digest s.integration_review_evidence;
}

abbrev pub same_binding : DigestBinding → DigestBinding → Bool
same_binding a b =
    a.authorization_digest == b.authorization_digest
    && (a.node_contract_digest == b.node_contract_digest
        && (a.topology_digest == b.topology_digest && a.integration_digest == b.integration_digest))

abbrev pub binding_matches : Option DigestBinding → DigestBinding → Bool
binding_matches none current = false
binding_matches (some stored) current = same_binding stored current

abbrev is_hex : ℕ → Bool
is_hex c = leb b'0' c && leb c b'9' || leb b'a' c && leb c b'f'

-- `n` hexadecimal digits and then the end, or the line feed that `$` lets stand there.
pub hex_digits : ℕ → String → Bool
hex_digits zero String.[] = true
hex_digits zero (String.◌∷◌ c String.[]) = nat_eq (code c) 10
hex_digits zero (String.◌∷◌ c (String.◌∷◌ d s)) = false
hex_digits (suc n) String.[] = false
hex_digits (suc n) (String.◌∷◌ c s) = is_hex (code c) && hex_digits n s

-- _DIGEST_RE and _SHA_RE
unfoldable pub is_digest : String → Bool
unfolding hex_digits
is_digest = hex_digits 64

unfoldable pub is_sha : String → Bool
unfolding hex_digits
is_sha = hex_digits 40
