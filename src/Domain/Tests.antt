-- ===== src/Domain/Tests.antt =====
-- Inputs for the theorems about internal/core/domain.
use dependency_firewall.Base.{
  false, has_prefix, refl, split_once, to_lower, trim, ◌&&◌, ◌==◌, ◌≡◌, ◌≢◌,
}
use dependency_firewall.Domain.Artifact.{ArtifactIdentity, normalize_npm, normalize_oci}
use dependency_firewall.Domain.Artifact.Canonical.{
  normalize_npm-safe, normalize_npm_idem, normalize_oci-canonical,
}
use dependency_firewall.Domain.Message.{ok}

abbrev scoped : ArtifactIdentity
scoped = record {
  ecosystem = "npm";
  namespace = "";
  name = "@Types/Node";
  version = "22.1.0";
  digest = "";
}

abbrev types_node : ArtifactIdentity
types_node = record {
  ecosystem = "npm";
  namespace = "@types";
  name = "node";
  version = "22.1.0";
  digest = "";
}

normalize_scoped : normalize_npm scoped ≡ ok types_node
unfolding normalize_npm has_prefix split_once to_lower
normalize_scoped = refl

normalize_npm-safe_example :
    (types_node.name ≢ "")
    × (has_prefix types_node.name "-" ≡ false)
    × (has_prefix types_node.version "-" ≡ false)
normalize_npm-safe_example = normalize_npm-safe scoped types_node normalize_scoped

normalize_npm_idem_example : normalize_npm types_node ≡ ok types_node
unfolding has_prefix
normalize_npm_idem_example = normalize_npm_idem scoped types_node normalize_scoped refl

abbrev nginx : ArtifactIdentity
nginx = record {
  ecosystem = "oci";
  namespace = "/Library/";
  name = "Nginx";
  version = "sha256:ab";
  digest = "";
}

abbrev canonical_nginx : ArtifactIdentity
canonical_nginx = record {
  ecosystem = "oci";
  namespace = "library";
  name = "nginx";
  version = "";
  digest = "sha256:ab";
}

normalize_nginx : normalize_oci nginx ≡ ok canonical_nginx
unfolding normalize_oci to_lower has_prefix trim
normalize_nginx = refl

normalize_oci-canonical_example :
    ((canonical_nginx.name == "") ≡ false)
    × ((canonical_nginx.version == "" && canonical_nginx.digest == "") ≡ false)
    × (normalize_oci canonical_nginx ≡ ok canonical_nginx)
normalize_oci-canonical_example = normalize_oci-canonical nginx canonical_nginx normalize_nginx
