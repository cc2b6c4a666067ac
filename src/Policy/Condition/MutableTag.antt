-- ===== src/Policy/Condition/MutableTag.antt =====
-- internal/core/policy/condition/mutabletag.go
use dependency_firewall.Base.{
  Bool, List, Option, String, [], contains, false, if◌then◌else◌, none, some, ◌&&◌, ◌∷◌,
}
use dependency_firewall.Domain.Artifact.{ArtifactMetadata}
use dependency_firewall.Domain.Config.{
  PolicyConfig, block_mutable_tag_config, validate_block_mutable_tag,
}
use dependency_firewall.Domain.Message.{Message, Result, err, errorf, ok, plain, text, ◌>>◌}
use dependency_firewall.Domain.Policy.{AccessRequest}

abbrev is_mutable : Option ArtifactMetadata → Bool
is_mutable none = false
is_mutable (some m) = m.is_mutable_tag

unfoldable pub match_mutable_tag : List String → AccessRequest → Option Message
match_mutable_tag tags req =
    if is_mutable req.metadata && contains tags req.artifact.version
    then some (record {
      format = "mutable tag %q is blocked by policy";
      args = text req.artifact.version ∷ [];
    })
    else none

unfoldable pub evaluate_block_mutable_tag :
    AccessRequest → Option PolicyConfig → Result (Option Message)
evaluate_block_mutable_tag req (some (block_mutable_tag_config none)) = do
  validate_block_mutable_tag none
  ok none
evaluate_block_mutable_tag req (some (block_mutable_tag_config (some c))) = do
  validate_block_mutable_tag (some c)
  ok (match_mutable_tag c.tags req)
evaluate_block_mutable_tag req _ = err (errorf (plain "block_mutable_tag requires %T, got %T"))
