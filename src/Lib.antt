-- ===== src/Lib.antt =====
-- The PanFS CSI driver: a plugin of the container storage interface that creates, deletes, expands
-- and mounts volumes of a PanFS realm for Kubernetes.
--
-- The plugin (cmd/csi-plugin) starts a driver (pkg/driver), which answers the calls of the CSI
-- specification until a signal ends it. The controller validates a request and turns to a storage
-- provider, an interface with two implementations in pkg/pancli: the client that runs `pancli`
-- commands on the realm over SSH, and a client that keeps its volumes in memory, for the sanity mode.
-- The node service mounts a volume through a mounter, with a temporary file for the KMIP configuration
-- of an encrypted one. pkg/utils has the volumes, the conversion of quotas and the table of volume
-- parameters.
--
-- Base: the shared names; Go's strings, maps, int64, errors and decimal conversions.
-- Utils/Context: pkg/utils/context.go. volume_parameters, get_sc_key, get_fmt.
-- Utils/Convert: pkg/utils/convert.go. A float64 is a whole number over a power of two.
-- Utils/Parser: pkg/utils/parser.go. Volume, VolumeList, the quota getters, volume_context, and the
-- listing of one volume that is marshalled.
-- Jsonlog: internal/jsonlog/logger.go, over a writer whose state is passed along.
-- Pancli/Errors: pkg/pancli/errors.go. parse_error_string; Errors/Clean is the tidying of a message.
-- Pancli/Options: getOptionalParameters of pkg/pancli/pancli_ssh.go.
-- Pancli/Ssh: SSHClient of pkg/pancli/pancli_ssh.go; the state is the cache of connections.
-- Pancli/Client: PancliSSHClient of pkg/pancli/pancli_ssh.go, over an SshRunner.
-- Pancli/Fake: pkg/pancli/pancli_fake.go; the state is the list of volumes.
-- Driver/Csi: the messages of the specification; Driver/Provider: StorageProviderClient of
-- pkg/driver/driver.go with its two implementations.
-- Driver/Validators: pkg/driver/validators.go.
-- Driver/Controller: pkg/driver/controller.go. create_volume, delete_volume, validate_capabilities,
-- controller_expand_volume, each from a request and the provider's state to a reply and a state.
-- Driver/Node: NodePublishVolume and NodeUnpublishVolume of pkg/driver/node.go; the calls about the
-- temporary file are recorded as a list of events, deferred calls last in, first out.
-- Driver/Unimplemented: the handlers of both files that only answer Unimplemented.
-- Driver/Mounter: PanFSMounter of pkg/driver/mounter.go, over mount.Interface; Mounter/Sanity is
-- PanFSFakeMounter.
-- Driver/NodeLabel: updateNodeLabel of pkg/driver/driver.go, NodeGetInfo, and the end of Run.
-- Driver/Identity: pkg/driver/identity.go and the capabilities that the services list.
-- Driver/Server: the three services that Run of pkg/driver/driver.go registers for one Driver, as a
-- function from a call and the driver's state to an answer and a state; Server/Volumes is what the
-- calls about volumes promise, as a relation on maps from names to volumes.
-- Driver/Startup: CreateDriver of pkg/driver/driver.go, and main of cmd/csi-plugin/main.go.
-- Driver/Serving: Run of pkg/driver/driver.go behind net.Listen. Its two goroutines are a relation of
-- steps that interleave in any order, with the RPCs that the server accepts, those that end, and the
-- calls of NodeGetInfo between them.
-- Tests: the theorems at concrete inputs.
--
-- Parameters of the model: the SSH library, the XML codec, the UUIDs, the answers of the operating
-- system and of the Kubernetes API, mount.Interface, and grpc.Server; of grpc.Server the promises of
-- its documentation are hypotheses. A pointer that may be nil is an Option, a panic is a value. A call
-- of getSSHConnection holds the mutex and is one step. Driver/Server takes the calls one at a time.
-- Driver/Server/Overlap takes calls of CreateVolume, DeleteVolume and ValidateVolumeCapabilities that
-- overlap, and Driver/Controller/Overlap those of CreateVolume for one request, with each call of the
-- storage provider as one step; how the calls are scheduled is gRPC's. Volumes are copied where the
-- source passes pointers: the in-memory client writes through its pointers only in ExpandVolume, which
-- is not among the calls that overlap. Driver/Serving has the RPCs that are pending while GracefulStop
-- waits for them, and the label's patch as an answer that the handler waits for. Loops are structural
-- recursion; the one use of fuel is the search for a float64's exponent, where 11 steps are enough for
-- an absolute value of int64.
--
-- Not modelled: the parsing of the executable's flags, the driver's own logging, the generated mocks,
-- timeouts, overlapping calls of the node service or of ControllerExpandVolume, a provider whose own
-- calls overlap, and what the mount library makes of the table of mounts.
pub mod Base
pub mod Utils
pub mod Jsonlog
pub mod Pancli
pub mod Driver
pub mod Tests
