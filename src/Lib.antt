-- ===== src/Lib.antt =====
-- tor-gateway: a Kubernetes Gateway API operator that exposes in-cluster Services as Tor v3 hidden
-- services.
--
-- The parts and how they interact. The operator (internal/controller) turns Gateways, HTTPRoutes and
-- policies into Tor pods, and writes on every HTTPRoute whether its references are resolved, that is
-- whether ReferenceGrants permit them. In each pod, Tor hands requests to the router
-- (internal/router), which lists the HTTPRoutes, compiles those of its Gateway into a route table,
-- leaves out cross-namespace backends that the operator has not marked resolved, and proxies each
-- request to the backend of the best match. Keys and addresses are handled by internal/tor; in
-- high-availability mode internal/onionbalance keeps the configuration of the onionbalance daemon in
-- step with the addresses of the backend pods.
--
-- The files and the code that they model:
--   Base and its children: shared names; tests on numbers, lists, bytes, decimal numbers, bits of a
--     byte, integers.
--   Api: the Kubernetes and Gateway API objects, with the fields that the code uses.
--   Router.Match (internal/router/match.go): PathMatch, Match, Rule, Backend, RouteTable;
--     `match_request` is RouteTable.Match, `match_rules`, `match_backends`, `match_rule` and `consider`
--     its loops; `path_matches` is pathMatches and `path_score` pathScore. Its children prove: Segments
--     what a prefix matches, Precedence which backend is chosen.
--   Router.Convert (internal/router/httproute.go): `rules_from_http_route` and its helpers.
--   Router.Aggregate (internal/router/aggregate.go): `rules_for_gateway`, `refs_resolved_for`,
--     `route_targets_gateway`, `drop_cross_ns_backends`.
--   Router.Proxy (internal/router/proxy.go, resolver.go, sync.go, and the event handlers of
--     router.go): the Proxy record, `serve_http`, `cluster_resolver`, `sync`, and `rebuild_all`, which
--     runs one sync for each informer event. A listing's outcome is an argument: routes, or an error.
--   Tor.Base32: the part of Go's encoding/base32 that internal/tor/onion.go uses.
--   Tor.Onion (internal/tor/onion.go): `to_string` is OnionAddress.String, `parse_address` is
--     ParseAddress. SHA3-256 is a parameter.
--   Tor.Keys (internal/tor/keys.go): KeyPair, the key files and their parsers, seed expansion. SHA-512
--     and ed25519.GenerateKey are parameters.
--   Controller.Grants (internal/controller/referencegrant.go): `allows` and its tests.
--   Controller.Conditions (gatewayclass_controller.go): `set_condition` and `reconcile_class`.
--   Controller.Permitted, Controller.RouteStatus and Controller.Attached (httproute_controller.go):
--     `backend_refs_permitted`; `build_route_parent_statuses` and `merge_route_parent_statuses`; and
--     `update_gateway_attached_routes`. Controller.RouteReconcile runs them in order (`reconcile`), and
--     Controller.GrantWatch is httproutesForReferenceGrant. The records Client and Cluster hold the
--     answers of the API client. The children Table and Resolution of RouteStatus join the operator's
--     statuses to the router that reads them.
--   Controller.Names, Controller.Children and Controller.Policies (names.go, vanity_resources.go and parts
--     of gateway_resources.go and gateway_controller.go): the names and the builders of the objects that
--     the key needs, and the policy in effect for a Gateway. Controller.Resources has the ConfigMap of
--     the torrc, the Service, the router's account and binding, and setProgrammingCondition.
--   Controller.Harvest (vanity.go, with the Job of internal/tor/vanity.go in Tor.Vanity): runVanityHarvest
--     as a handler that reads the environment Env, changes the Store of a Gateway's objects and may end in
--     an error; a Call fails where Env says so and changes nothing. Controller.KeySecret is ensureKeySecret
--     of gateway_controller.go on the same store. The monad of handlers is Base.Act.
--   Controller.PolicyStatus (torservicepolicy_controller.go, torclientauthpolicy_controller.go) and
--     Controller.OnionBalance (onionbalancepolicy_controller.go, with Tor.MasterKey for
--     internal/tor/master_key.go): the statuses that the policy reconcilers write, from the answers of
--     their records Client; OnionBalance.Requests is what a watched object asks to reconcile.
--   Onionbalance.Config, Onionbalance.Backends and Onionbalance.Refresher (internal/onionbalance): the
--     rendering of config.yaml, the choice and the sort of the backends, NewRefresher and the effects of
--     a rebuild. Onionbalance.Debounce has schedule, fire and Run as a step relation on the state World.
--   Tor.ClientAuth (internal/tor/clientauth.go): the files of authorized clients. Tor.Torrc (torrc.go):
--     `validate` and the rendering of the daemon's configuration.
--   Onionbalance.Tests, Tor.ClientTests, Tor.TorrcTests, Router.Tests, Tor.Tests, Tor.Samples,
--     Controller.Samples, Controller.KeyTests, Controller.PolicyTests, Controller.ResourceTests,
--     Controller.Tests, Controller.RouteTests: concrete runs.
--
-- How values are modelled. Names, namespaces, kinds and other texts that are only compared are
-- native strings; texts that the code walks are lists of bytes. For case and white space only the
-- ASCII part of Go's tables is modelled, so texts are taken to be ASCII. Numbers are natural
-- numbers: an int32 counter is kept modulo 2^32, no other number that is modelled overflows, and
-- ports and generations are not negative, but for the ports of the torrc, the interval of the
-- refresher and the deadline of a Job, which are integers. A nil pointer is `none`, an error result a
-- constructor of the component's own error type. No function runs on fuel but the printing of decimals, where one round for each unit of the number is more
-- than enough, as each round divides by ten.
--
-- What is not modelled: the wiring of informers and of the controller manager, which calls libraries
-- only; the atomic swap of the table under concurrent requests (the router's syncs are taken one
-- after another, as the informer calls its handlers); the contents of HTTP requests but for the
-- path, which is all that the router reads; the order in which the Gateway reconciler calls its
-- steps, the Deployment and the Role that it builds, its Mode B, and the network policies; changes
-- of the cluster by others during a run of a handler; the directory permissions in internal/tor; the
-- atomic write and the signal of internal/onionbalance, and two rebuilds at once; and the programs
-- under cmd, with the init container's file access.
pub mod Base
pub mod Api
pub mod Router
pub mod Tor
pub mod Onionbalance
pub mod Controller
