-- ===== src/Lib.antt =====
-- A model of the core of nvidia-ci, the test library for NVIDIA's GPU and network operators on
-- OpenShift: the choice of precompiled driver images, the registry clients behind it, the builders
-- of cluster objects, the waits for their states, and the helpers of the MIG and time-slicing tests.
--
-- How the parts interact. SelectPrecompiledOFED asks a catalog client for the images of a repository
-- and keeps the latest that fits the worker's kernel, OS tag and architecture. The catalog client
-- takes credentials from the cluster's pull secret, lists the registry's tags over HTTP with a token,
-- and builds a catalog image of each tag that has a kernel in it. A requested image is parsed,
-- checked against the same client, and later sought in the driver pods.
-- DiscoverPrecompiledDriverVersion lists the tags of another registry by the same flow and keeps one
-- version by major version. The waits pull builders until these are in a state. The time-slicing
-- helpers change the device plugin's ConfigMap, the ClusterPolicy and the nodes' labels together, and
-- put back what a snapshot has kept.
--
-- Files and sources.
--   Common, Text, Regex     the shared helpers; Go's strings, strconv.Atoi and sort.Strings on lists of
--                           bytes; and regexp's leftmost match for the expressions in use
--   Ofed/Image, Ofed/Select, Ofed/Version
--                           pkg/nvidianetwork/precompiledofed.go: CatalogImage, OFEDImage, the tag
--                           rules, the selection loop and compareDottedVersion
--   Ofed/Explicit, Ofed/DriverPods
--                           pkg/nvidianetwork/explicitofed.go
--   Ofed/NodeOs             pkg/nvidianetwork/nodeostag.go
--   Ofed/PullSecret         pkg/nvidianetwork/pullsecret.go, and dockerAuthFromSecret of
--                           pkg/nvidianetwork/stagingregistry.go
--   Ofed/Staging            catalogImagesFromTags and parsePrecompiledTag of
--                           pkg/nvidianetwork/stagingregistry.go
--   Ofed/Catalog            ListImages and stagingRegistryAuth of
--                           pkg/nvidianetwork/stagingregistry.go
--   Registry                the HTTP flow of pkg/nvidianetwork/stagingregistry.go and of
--                           pkg/nvidiagpu/precompiled.go, which differ in a Site: registry,
--                           repository, user agent, and the hosts that may receive the password
--   Driver                  pkg/nvidiagpu/precompiled.go: discovery and deduplication
--   Mig                     pkg/mig/mig.go and pkg/mig/migtypes.go: parameters, time slices, profiles,
--                           PIDs and node labels
--   Mig/TimeSlicing         the time-slicing configuration of pkg/mig/mig.go: capture, creation, removal
--   Wait                    internal/wait/wait.go and internal/wait/networkwait.go
--   Cluster/Api, Cluster/ConfigMap
--                           the API's answers and the builder, and pkg/configmap/configmap.go
--   Cluster/Crd, Cluster/NicPolicy, Cluster/IpoibNetwork, Cluster/MacvlanNetwork
--                           the common form of the custom resources, and nicclusterpolicy.go,
--                           ipoibnetwork.go and macvlannetwork.go of pkg/nvidianetwork
--   Cluster/Alm, Cluster/ClusterPolicy
--                           pkg/olm/almexamples.go and pkg/nvidiagpu/clusterpolicy.go
--   Cluster/Finalized, Cluster/NvidiaDriver, Cluster/GpuCluster
--                           pkg/nvidiagpu/nvidiadriver.go, gpucluster.go and consts.go
--   Cluster/Csv             pkg/olm/clusterserviceversion.go
--   Cluster/Olm             pkg/olm/operatorgroup.go, subscription.go, catalogsource.go, installplan.go
--   Cluster/Namespace       pkg/namespace/namespace.go
--   Cluster/Node            pkg/nodes/node.go
--   Cluster/Deployment      pkg/deployment/deployment.go: Pull and Exists, the calls and the waits
--   Tests files             runs on concrete inputs
--
-- State and errors. A Go function with an error is a function into Result, or into a result and the
-- state behind it: the requests handed to client.Do so far for the HTTP flow, the secrets by
-- namespace and name for the pull secret, the builder and the client's world for a builder. A wait
-- takes the worlds or the answers of its polls up to the timeout, and ends in success, in the
-- timeout or in an error. The time-slicing helpers write a store of the objects, in which the
-- number of writes so far decides which call fails. A nil pointer is `none`. Errors are data with
-- the texts that matter; their wording is left out, and so are log lines.
--
-- Parameters. client.Do of net/http answers by the requests handed to it so far; what it requests
-- by itself behind a redirect is a further parameter, with the rule of net/http for credentials.
-- url.Parse, url.QueryEscape, encoding/json and encoding/base64 are fields of a record. The
-- cluster's API is a Client with a world of its own. rand.Intn and the expressions of
-- PidParseConfig are arguments.
--
-- Bounds. The loop over pages, which the source does not bound, has a number of rounds, and
-- `out_of_rounds` stands for a loop that goes on past them; the theorem on chains of pages says how
-- many are enough. The regular expressions repeat at most as often as the text has bytes, since a
-- round that takes nothing ends the repetition. Versions' numbers are those that Atoi accepts, so
-- they fit an int64; sums of counts wrap in int64. Texts are bytes: strings.TrimSpace and
-- strings.EqualFold are modelled on ASCII.
--
-- Not modelled: nil builders and the nil clients of the builders' constructors; the builders of
-- pods, machine sets and NFD; the drains of nodes; the rest of the deployment, namespace, node and
-- OLM packages; the MIG workloads and the parse of MIG profiles; RDMA and the other helpers; and
-- the test suites, which need a live cluster.
pub mod Common
pub mod Text
pub mod Regex
pub mod Ofed
pub mod Registry
pub mod Driver
pub mod Mig
pub mod Cluster
pub mod Wait
