-- ===== src/Lib.antt =====
-- virtnet hands out IPv4 addresses to pods of Kubernetes. A Subnet names address ranges; a
-- controller keeps as many IPPools for it as it asks for and shares the addresses among them; an
-- agent on each node takes an address for a pod from one of the pools and records it in an
-- Endpoint; when the Endpoint is deleted, the controller gives its addresses back to their pools.
--
-- Prelude: texts as lists of character codes, association lists for maps, and Outcome, the ways in
-- which a Go call ends: a value, an error, a panic, or a loop that ran out of fuel.
--
-- Ip: pkg/ip and pkg/constant/ip.go. Ip.antt has addresses (nil, IPv4 or IPv6), NextIP (next_ip),
-- Cmp, IsIP and the interface Net to Go's net and govalidator. Ip/Range reads ranges
-- (ParseIPRange, ContainsIPRange, IPRangeContainsIP), Ip/Merge writes them (ConvertIPsToIPRanges,
-- MergeIPRanges), Ip/Cidr has the subnets, Ip/Sets has IPsDiffSet, IPsIntersectionSet and
-- AssembleTotalIPs. Ip/Walk, Ip/MergeLaws, Ip/RoundTrip, Ip/RangeLaws and Ip/CidrLaws have the
-- proofs.
--
-- Api and Convert: the resources of pkg/k8s/apis/virtnet/v1alpha1 as records, and
-- pkg/utils/convert over an interface Json to encoding/json, whose documented round trip is the
-- hypothesis Lawful.
--
-- Cluster: the API server, with the stored resources and a list of answers, one for each call, by
-- which it may refuse the call. A conflict with another writer is such an answer. Lists of pools and
-- reads of Endpoints are answered by a cache of controller-runtime, which may lag behind: it is a
-- parameter, PoolCache and EndpointCache, and the theorems that need it to show every write have
-- that as a hypothesis, IsCurrent and IsUpToDate. Reads of a single pool give the stored one, since
-- the server refuses an update that follows a stale read. The webhook lists what is stored.
--
-- Retry: pkg/utils/retry/retry.go without its waiting times.
--
-- Pool: pkg/ippool/ippool_client.go. Pool.antt has the map of pools with AddFunc (on_add),
-- DeleteFunc (on_delete) and next; Pool/Allocate has AllocateIP and allocateIP. A handler or a
-- round of AllocateIP is one step, as it holds a mutex.
--
-- Pool/Reaching says when AllocateIP finds an address and when it gives up too early.
--
-- Reconciler: pkg/subnet/subnet_reconciler.go and pkg/subnet/utils.go. Reconciler.antt has
-- Reconcile; Reconciler/Replicate, Release, Gather, Expand and Split have its steps.
-- Reconciler/Resized, TrimLaws and GrowLaws follow all the pools of a Subnet, beside the shelves
-- that they stand for, through replicate, the release and the extension; Reconciler/Whole is the
-- whole run.
--
-- Endpoints: pkg/endpoint/endpoint_reconciler.go. Endpoints/Freed says what a release does to a
-- pool.
--
-- Webhook: the admission of Subnets, pkg/subnet/subnet_validate.go (Webhook/Validate),
-- subnet_mutate.go and ippool_webhook.go (Webhook/Admit). Webhook/Collecting, Passing and Using say
-- what each validator has seen when it passes, Webhook/Gateway what it means that a range has the
-- gateway, and Webhook/Admitted puts them together.
--
-- Ipam: pkg/ipam/ipam.go, pkg/endpoint/endpoint_client.go and the owner references of
-- pkg/pod/pod_client.go. Ipam/Command is the IPAM plugin, cmd/ipam/main.go, from the agent's answer
-- on, and Ipam/Config the configurations of the two plugins. Ipam/Taken, Idempotence, Leaks and
-- Behind follow a request from the address that AllocateIP takes.
--
-- Inventory: an abstract view of the pools of a Subnet as shelves of addresses, allocated or free.
-- Inventory/Refines relates one write to the pools to a step of the shelves, Inventory/Writes
-- sequences of writes of agents and controllers, Inventory/Unique says that steps never put an
-- address on two shelves, Inventory/Fresh that the controller hands out new addresses only, and
-- Inventory/Held and Once which addresses stay in use.
--
-- System: the agents and the controllers together. Cluster/Triples has rules for computations whose
-- calls the server may refuse, Cluster/Refusals what each call does; by them Reconciler/Safe,
-- SafeLoops, SafeReplicas and SafeRun follow the Reconcile of a Subnet, System/Found and Agents
-- AllocateIP, and System/Releases and Endpoints the Reconcile of an Endpoint. System/Runs has
-- sequences of runs of all three. A run is one step: a write of another process to the same pool in
-- between shows as a conflict that the server answers. The cache of pools is current there: a list
-- that misses an earlier write can lead Reconcile to put an address in two pools (Tests/Runs has
-- such a run).
--
-- Networking: pkg/networking. The calls of netlink, of the network namespaces and of the vendored
-- helpers are the interface Netlink over an abstract state, of which the namespace a call runs in
-- is a part. Networking/Mac, Addresses, Routes and Moving are mac.go, ip.go and route.go;
-- Networking/Checking is the check of an IPv6 address of ipchecking.go, over an interface Ndp, and
-- Networking/Arp that of an IPv4 address, whose sender and receiver are steps that interleave.
--
-- Coordinator: the plugin that connects a pod to its host, cmd/coordinator. Coordinator/Veth, Setup
-- and HostAddresses are the steps of types/coordinator.go, Coordinator/Plugin is main.go with the
-- commands ADD and DEL, and Coordinator/Server is the agent's answer: pkg/coordinator and
-- GetServiceClusterIPRange of pkg/pod/pod_client.go.
--
-- Tests: concrete instances of the interfaces, and runs.
--
-- Bounds: the loop of ParseIPRange is the one loop that may not end, so it has fuel; more fuel
-- than the range has addresses is enough inside 1.0.0.0 to 255.255.255.254, and at the ranges
-- where the loop never ends no fuel is. The splitting loop has as much fuel as there are
-- addresses. AllocateIP has the five rounds of DefaultRetry. Counts and addresses are natural
-- numbers: a count is at most the number of IPv4 addresses, which fits the int64 of the source.
--
-- Not modelled: the order in which Go walks a map (lists stand for maps, in one order), the text
-- of errors and logs, waiting times and contexts, the set-up of controllers and informers, the
-- start of the checks for conflicting addresses, which opens raw sockets and runs goroutines, the
-- decoding of the plugins' JSON and arguments, the commands that start the servers, and generated
-- and vendored code.
pub mod Prelude
pub mod Ip
pub mod Api
pub mod Convert
pub mod Retry
pub mod Cluster
pub mod Pool
pub mod Reconciler
pub mod Endpoints
pub mod Inventory
pub mod Webhook
pub mod Networking
pub mod Coordinator
pub mod Ipam
pub mod System
pub mod Tests
