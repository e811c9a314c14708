-- ===== src/Lib.antt =====
-- Astacus: cluster-wide database backups. A coordinator runs operations (backup, restore, cleanup,
-- listing) over the nodes of a cluster; nodes and coordinator keep documents and files in object
-- storages. This library models the core of it over explicit states.
--
-- * Exceptions (astacus/common/exceptions.py): the exceptions, and methods that return a state beside
--   their outcome, also where they raise.
-- * Ipc (astacus/common/ipc.py): the messages that the other parts read.
-- * Progress (astacus/common/progress.py): the progress meter; Progress.Merge is `Progress.merge`.
-- * Op (astacus/common/op.py): the life of an operation: `allocate_op_id`, `start_op` with the
--   wrappers of its task, `set_status`, `get_op_and_op_info`.
-- * NodeLock (astacus/node/state.py and the lock endpoints of astacus/node/api.py): the lock on one
--   node. Cluster (astacus/coordinator/cluster.py, `acquire_cluster_lock` of
--   astacus/coordinator/coordinator.py) takes the locks of all nodes over a network that may lose a
--   request or a reply; its nodes answer by the endpoints of NodeLock.
--   Cluster.Waiting is the polling of the nodes for their results.
-- * Steps (astacus/coordinator/coordinator.py, astacus/coordinator/plugins/base.py): how an operation
--   tries its steps. A step is any function of the results so far and of the world.
-- * Storage (astacus/common/storage.py, astacus/common/cachingjsonstorage.py): the interfaces of the
--   JSON and hexdigest storages as records of operations, with the contracts that a client relies on;
--   Storage.Caching is CachingJsonStorage over any two storages. Storage.Memory is a storage of the
--   examples.
-- * Retention and Cleanup (astacus/coordinator/plugins/base.py, astacus/coordinator/manifest.py): which
--   backups are pruned, and the cleanup's steps over storages that keep their contracts.
-- * NodeMap and UploadPlan (astacus/coordinator/plugins/base.py): `get_node_to_backup_index` and
--   `build_node_index_datas`.
-- * RestoreSteps and Manifests (astacus/coordinator/plugins/base.py): the requests of a restore to the
--   nodes, and the steps that store a manifest and find it again.
-- * Snapshotter (astacus/node/snapshotter.py, sqlite_snapshot.py and snapshot_groups.py beside it): the
--   snapshot of a node's files as rows by path, with the linked files of the destination;
--   Snapshotter.Queries has the queries, the release, and the work of the operations of
--   astacus/node/snapshot_op.py and astacus/node/clear.py.
-- * Uploader (astacus/node/uploader.py) and Downloader (astacus/node/download.py): the transfer of
--   files to and from a hexdigest storage that keeps its contract. RoundTrip puts the three together:
--   the backup of one node and its restore to another.
-- * Listing (astacus/coordinator/list.py, and `GET /list` of astacus/coordinator/api.py with the state
--   of astacus/coordinator/state.py).
-- * ZooKeeper (astacus/coordinator/plugins/zookeeper.py): the in-memory ZooKeeper.
-- * FifoCache and Backoff (astacus/common/utils.py).
--
-- A function of the code has its name here; a class is a record, and its method a function of the
-- record. Dictionaries are association lists in insertion order, sets are lists. Sizes, times and
-- counts are natural numbers, times in units fine enough to be whole. All loops run over lists or
-- over a number of attempts that the code itself bounds, so that no fuel is needed. Parameters stand
-- for the decoding of documents (msgspec), the readings of clocks, the logarithm of the reporting
-- rule, the match of a path with a glob, the digest and base64 texts of bytes, and the code of the
-- steps. The workers of a pool are run one by one, in the order in which their results are taken up.
--
-- Not modelled: the plugins but for the in-memory ZooKeeper, directories and their owners, the start
-- of the nodes' operations, the relock loop, the other steps of a backup and of the restore of deltas,
-- and the storages of the rohmu library, which are later work; statistics, logging, configuration,
-- servers and the command line, which only call libraries; and FileStorage, whose behaviour at names
-- and documents that are no proper file names or empty comes from the file system. A link to a file is
-- held as the content that the file has when it is linked, so that what a later write in place does to
-- both is not modelled.
pub mod Prelude
pub mod Exceptions
pub mod Progress
pub mod Ipc
pub mod Retention
pub mod Op
pub mod NodeLock
pub mod Storage
pub mod Cleanup
pub mod UploadPlan
pub mod FifoCache
pub mod NodeMap
pub mod Listing
pub mod ZooKeeper
pub mod Cluster
pub mod Backoff
pub mod Steps
pub mod Snapshotter
pub mod Uploader
pub mod Downloader
pub mod RoundTrip
pub mod RestoreSteps
pub mod Manifests
