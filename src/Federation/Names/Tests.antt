-- ===== src/Federation/Names/Tests.antt =====
-- The names of federated tools: tests, and the theorem at a concrete name.
use pdatahub.Federation.Names.{
  split_at_sep, nonempty_pair, parse_federated_tool_name, federated_name,
}
use pdatahub.Federation.Names.RoundTrip.{is_plain, parse-federated_name}
use pdatahub.Delegations.Blob.{drop_chars}
use pdatahub.Prelude.{◌≡◌, ◌≢◌, arith, eq_iff, some, refl, String}

bob≢empty : ◌≢◌ {A = String} "bob_1" ""
bob≢empty = ground (arith, eq_iff "bob_1" "")

tool≢empty : ◌≢◌ {A = String} "gmail.search" ""
tool≢empty = ground (arith, eq_iff "gmail.search" "")

parse-federated_name_example :
    parse_federated_tool_name (federated_name "bob_1" "gmail.search")
    ≡ some ("bob_1", "gmail.search")
parse-federated_name_example =
    parse-federated_name "bob_1" "gmail.search" (unfold is_plain in refl) bob≢empty tool≢empty

-- A hub with two underscores in its name is read as another hub.
ambiguous_hub : parse_federated_tool_name (federated_name "b__c" "d") ≡ some ("b", "c__d")
unfolding parse_federated_tool_name federated_name split_at_sep nonempty_pair drop_chars
ambiguous_hub = refl
