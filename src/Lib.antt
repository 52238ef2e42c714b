-- ===== src/Lib.antt =====
-- A verification library for Dorothy, which versions datasets on IPFS and shares them through a
-- server.
--
-- The parts of the program, and the files that model them:
--
-- Manifests (core/manifest.go): Version and Manifest. A manifest is a list of versions that name
-- their parents; two manifests are merged by Conflicts, Diff, Merge and toposort, whose words the
-- definitions keep (same_hash, equal, conflicts, diff, merge, toposort, leaf_versions,
-- unknown_commits). Manifest/Report has the lines of the tables that show a conflict and, from
-- cmd/log.go, a version. A nil slice is the empty list. A date is an instant and a zone, and the
-- tests of dates read the instant alone. The nodes that toposort gives to its sorter are slots: the
-- address of a slice element with the version that it points to. Outcome has the results of these
-- operations: a value, conflicts with an error, or an error.
--
-- The sorter (v.io/x/lib/toposort, not part of the repository): Sorter states its interface and its
-- documented laws, and every definition that sorts takes it as an argument. Sorter/Reference is a
-- sorter with these laws, which the tests run.
--
-- The world (kubo, boxo, encoding/json, the file system): Host is a record of the operations that
-- core/ipfs.go and core/dorothy.go call, on an abstract state, with the laws that the theorems rely
-- on. Host/Memory is a host in memory with these laws. Effects composes steps that change a state
-- and may fail; what was written before an error stays written.
--
-- The node (core/ipfs.go): Ipfs, with SaveManifest, GetManifest, Get, Add, AddMany, MergeAndCommit
-- and CommitVersion of a connected node. Setup/Connection has NewIpfs, Initialize and Connect,
-- which open a local node or reach a global one, over kubo as the record Kubo.
--
-- The client (sdk/client.go): Sdk, with the requests, Login and LoginGuard over net/http as the
-- record Http. Sdk/Cookies reads and writes the cookie file, which Http leaves to two of its
-- operations. A client has the scheme and the host of its base URL.
--
-- The repository (core/dorothy.go, core/config.go): Repo has the state (Dorothy, its client and the
-- world) with Checkout, Commit, Recieve and the manifest file, and Repo/Exchange has SdkClient,
-- Fetch and Push. A dereferenced nil pointer is the error nil_dereference. They call the operations
-- of the node and, for Fetch and Push, of the client. Repo/Reach runs operations one after the
-- other.
--
-- The configuration (core/config.go, core/dorothy.go): Config has the configuration and NewRemote,
-- Config/Addresses the texts of remotes and of a global node, and Config/Remotes reads them back.
-- Config/Tree is the map of a configuration file, a tree of tables, with the loops of SetConfig,
-- GetConfig and DelConfig. Setup/Configs reads and writes files, changes properties and reloads;
-- TOML and the operating system are the record System of Setup.
--
-- Setting up (core/dorothy.go): Setup/Start has NewDorothy, IsInitialized, Setup, Initialize and
-- Clone. Setup/Ready, Setup/Initial and Setup/Cloning follow the last three from their start to
-- their end.
--
-- The views (core/versionlist.go, sdk/credentials.go): View has messages, commands and the widgets
-- of bubbletea as records. View/Versions is the list of versions and View/Form the login form; a
-- run of a view reads a list of messages, and quits, panics or waits for more. Whether the list
-- shows its status message is not followed. View/Submit types a whole login into the form.
--
-- The commands (cmd): Command/Programs has the commands but commit, on the parsed flags;
-- Command/Commit has commit, and Command/Parentage its questions. Code that may ask for ever gets
-- fuel, a bound on the questions of each loop, and answers none where it has not ended.
-- Command/Serve has serve as steps of the command, its goroutine and the channel between them; what
-- fiber does while it listens is the record Listener.
--
-- Access control (server/model): Access has the users, organizations, datasets and privileges; a
-- missing organization, at which the code panics, is none. Slug has Slugify (server/model/util.go),
-- over the code points of a name.
--
-- The server (server/handlers.go, server/server.go, server/db.go): Server has the context of a
-- request and the answers, Server/Visible what is listed, Server/Datasets GetDataset,
-- RecieveDataset and Dataset, Server/Pages the views, Server/Forms the creation of organizations
-- and datasets, Server/Accounts registration, login and, from server/auth.go, the authenticator,
-- and Server/Routes the handlers in front of a dataset, one after the other. fiber and gorm are the
-- records Fiber and Database, and Accounts with bcrypt and jwtauth. Server/Tokens makes and reads
-- the tokens of Accounts, over jwtauth as the record Jwt, and Server/Newcomers follows a user from
-- the registration on. Server/Session opens the database over gorm as the record Store, and
-- Server/Startup makes a server from a program: its node, its secret and its database.
-- Server/Dispatch has the routes of setup in their order and runs those that match a request one
-- after the other; which match, and what fiber's own handlers do, is the record Router. An answer
-- carries the status that the code sets before it; how fiber sends a redirect is its own. Handlers
-- run one at a time: nothing is said about two requests that interleave.
--
-- Base has the Boolean tests and the lemmas on lists that the parts share. Only the questions of
-- commit need fuel; the other loops run over lists.
--
-- Not modelled: the parsing of flags, the layout of what is printed, and the passing of commands to
-- cobra (main.go, cmd/config.go, cmd/root.go); styles, help texts and the drawing of the views
-- (core/versionlist.go, sdk/credentials.go); what a view is bound to (bind and addState of
-- server/handlers.go); the GraphQL marshalling of versions and IpfsPath (core/manifest.go), and
-- Read, ReadConfig and Multiaddr (core/config.go), which nothing in the repository calls; views,
-- styles and tests.
pub mod Base
pub mod Version
pub mod Outcome
pub mod Sorter
pub mod Manifest
pub mod Access
pub mod Effects
pub mod Host
pub mod Ipfs
pub mod Sdk
pub mod Config
pub mod Repo
pub mod Setup
pub mod Slug
pub mod View
pub mod Command
pub mod Server
