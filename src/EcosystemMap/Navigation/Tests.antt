-- ===== src/EcosystemMap/Navigation/Tests.antt =====
-- A map with three definitions, of which one repeats an id, and the theorems at it.
use leitstand.Common.{◌≡◌, refl, String, none, some, List, [], ◌∷◌, map, All, Pointwise, Result}
use leitstand.Common.Text.{starts, begins, skip, split, trim, trim_start, trim_end, is_hex}
use leitstand.Host.{Host}
use leitstand.Host.Samples.{sample_host, Returns, value, value-ok}
use leitstand.EcosystemMap.Links.{Link, linked}
use leitstand.EcosystemMap.Links.Laws.{IsLink}
use leitstand.EcosystemMap.Nodes.{active}
use leitstand.EcosystemMap.Mermaid.{
  NodeIdentity, span, after, after_break, match_id, match_label, match_definition, identity_of,
  identities_from, extract_mermaid_node_identities,
}
use leitstand.EcosystemMap.Mermaid.Laws.{
  AreIdentities, extract_mermaid_node_identities-AreIdentities,
}
use leitstand.EcosystemMap.Navigation.{
  leitstand_page, NodeNavigation, is_repository, canonical_source_href, navigate,
  build_ecosystem_map_navigation,
}
use leitstand.EcosystemMap.Navigation.Serialization.{
  replace_all, escape, serialize_ecosystem_map_navigation,
}
use leitstand.EcosystemMap.Navigation.Laws.{StandsFor, build_ecosystem_map_navigation-StandsFor}
use leitstand.EcosystemMap.Navigation.Serialized.{
  IsInert, serialize_ecosystem_map_navigation-IsInert,
}

abbrev content : String
content =
    "graph TD\n  bureau[\"Bureau<br/>id: bureau<br />active\"]\n  again[\"Again<br>id:bureau<br>\"]\nplain[\"Plain\"]\n  chronik[\"Chronik <br> id<br/>id: chronik <br/>\"]"

found_ids :
    map (λ (n : NodeIdentity). n.node_id) (extract_mermaid_node_identities content)
    ≡ "bureau" ∷ "chronik" ∷ []
unfolding extract_mermaid_node_identities identities_from identity_of match_definition match_label
    match_id after_break after span starts begins skip trim trim_start trim_end split
found_ids = refl

extract_mermaid_node_identities-AreIdentities_example :
    AreIdentities content (extract_mermaid_node_identities content)
extract_mermaid_node_identities-AreIdentities_example =
    extract_mermaid_node_identities-AreIdentities content

abbrev links : List Link
links =
    record {
      node_id = "bureau";
      label = "Bureau";
      status = linked;
      reason = none;
      links = record { view = "bureau"; href = "/bureau"; title = "Tasks" } ∷ [];
    }
    ∷ []

links-IsLink : All IsLink links
unfolding starts begins
links-IsLink =
    (record { named = λ e. cc; labelled = λ e. cc; fits = λ e. cc; local_targets = (refl, tt) }, tt)

abbrev host : Host
host = sample_host [] []

abbrev built : Result (List NodeNavigation)
built =
    build_ecosystem_map_navigation host content links "heimgewebe/systemkatalog"
      "0123456789abcdef0123456789abcdef01234567" "rendered/ecosystem-registry-map.mmd" []

built_returns : Returns built
unfolding build_ecosystem_map_navigation navigate canonical_source_href is_repository is_hex
    extract_mermaid_node_identities identities_from identity_of match_definition match_label
    match_id after_break after span starts begins skip trim trim_start trim_end split
built_returns = tt

build_ecosystem_map_navigation-StandsFor_example :
    Pointwise
      (StandsFor host "heimgewebe/systemkatalog" "0123456789abcdef0123456789abcdef01234567"
        "rendered/ecosystem-registry-map.mmd")
      (extract_mermaid_node_identities content)
      (value built built_returns)
build_ecosystem_map_navigation-StandsFor_example =
    build_ecosystem_map_navigation-StandsFor host content links "heimgewebe/systemkatalog"
      "0123456789abcdef0123456789abcdef01234567" "rendered/ecosystem-registry-map.mmd" []
      (value built built_returns) links-IsLink (value-ok built built_returns)

abbrev entry : NodeNavigation
entry = record {
  mermaid_id = "bureau";
  node_id = "bureau";
  label = "</script>";
  href = "/bureau";
  title = "a & b";
  target_kind = leitstand_page;
  source_href = "https://github.com/";
  purpose = "";
  lifecycle_state = some active;
  lifecycle_reviewed_at = none;
}

escaped : escape "</script>" ≡ "\\u003c/script\\u003e"
unfolding escape replace_all
escaped = refl

serialize_ecosystem_map_navigation-IsInert_example :
    IsInert (serialize_ecosystem_map_navigation host (entry ∷ []))
serialize_ecosystem_map_navigation-IsInert_example =
    serialize_ecosystem_map_navigation-IsInert host (entry ∷ [])
