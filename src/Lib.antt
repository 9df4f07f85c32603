-- ===== src/Lib.antt =====
-- gitlab-shell: the SSH front end of GitLab.
--
-- A client reaches GitLab through sshd with the program gitlab-shell, or through the server
-- gitlab-sshd. Authentication finds a key, a user name or a principal; a session asks for one
-- command; the command is built for that user, asks the internal API and relays Git data. The
-- modules follow that way.
--
--   Sshd.ServerConfig   internal/sshd/server_config.go: publicKeyCallback, handleUserKey,
--                       handleUserCertificate and validateKeyID as functions from a key to a result;
--                       Keys has the keys that newServerConfig reads.
--   Sshd.Connection     internal/sshd/connection.go: the state of a connection is a record, and
--                       TryAcquire, Accept, the counters, the flag and Release are steps of their
--                       own; Limit has the relation of the interleavings, Sli the counters of
--                       connections.
--   Sshd.Server         internal/sshd/sshd.go: the server's life is a step function on events, of which
--                       `serve`, the connections and Shutdown make a sequence; session_of is the
--                       session that handleConn makes; Identity and Kerberos join it to the
--                       authentication and to handle.
--   Sshd.Session        internal/sshd/session.go: handle is structural on the list of requests and
--                       returns the effects of the session in their order.
--   ShellCommand        cmd/gitlab-shell/command/command.go: Build and the constructors New,
--                       NewWithKey, NewWithKrb5Principal and NewWithUsername.
--   Access              internal/gitlabnet/accessverifier, internal/command/shared/accessverifier
--                       and Execute of internal/command/receivepack, uploadpack and uploadarchive;
--                       Audit has internal/command/gitauditevent and its client.
--   Lfs                 internal/command/lfstransfer/gitlab_backend.go: batches, their arguments and
--                       the transfer of objects; Locks has the rest of that file, Client the
--                       requests of internal/gitlabnet/lfstransfer/client.go, Command Execute of
--                       internal/command/lfstransfer and lfsauthenticate.
--   Gitaly              internal/gitaly/gitaly.go and internal/handler/exec.go: GetConnection with the
--                       calls that come between its two locks, and what RunGitalyCommand does.
--   Accounts            internal/command/discover, twofactorrecover, twofactorverify and
--                       personalaccesstoken with their clients of internal/gitlabnet: what is asked
--                       and printed; the goroutines of twofactorverify are a sequence of events.
--   Health              internal/command/healthcheck and internal/gitlabnet/healthcheck.
--   Lookup              internal/gitlabnet/authorizedkeys and authorizedcerts.
--   Config              internal/config/config.go: newFromFile and parseSecret.
--   CommandArgs         internal/command/commandargs/shell.go: Shell.Parse and what it calls.
--   KeyLine             internal/keyline/key_line.go with internal/command/authorizedkeys,
--                       internal/command/authorizedprincipals and their arguments.
--   PktLine             internal/pktline/pktline.go: the splitter; Stream runs it as bufio.Scanner
--                       does, over the list of what the reads return.
--   GitHttp             internal/command/githttp: readFromStdin of push.go and pull.go, and
--                       requestInfoRefs of util.go; Execute has their Execute, which returns the
--                       requests that were sent, Cells has cells.go.
--   ApiClient           client/gitlabnet.go and client/httpclient.go: paths and errors.
--   Http                requests and transports; Client has client/httpclient.go, GitlabNet the rest
--                       of client/gitlabnet.go and client/transport.go, Internal has
--                       internal/clients/gitlab, Git has internal/gitlabnet/git, Shared the client
--                       that internal/config makes once.
--   Topology            internal/topology: config.go and resolver.go; Client has client.go, where the
--                       steps of concurrent callers are a list, and Routed the clients of resolver.go.
--   Programs            cmd: the steps of main.go of each program; Console has internal/console.
--   Errors              Go's errors with errors.Is and errors.As, and results.
--   Path, Decimal       path.Join and strconv.Itoa of Go's standard library.
--   Prelude             names, texts and lists that the modules share.
--   Tests               runs on concrete inputs.
--
-- A text is the list of its bytes, and a number that the code keeps non-negative is a natural
-- number. The code that is not in the repository is a parameter: the shell words parser, SSH
-- messages, cryptography, JSON, gRPC codes, and the answers of the internal API and of the Topology
-- Service. Two loops of GitHttp run on fuel, one more than the bytes of the input: each round takes
-- a packet of four bytes or more. The loop over the trusted CA keys of a file runs on fuel as well,
-- the length of the file: each key takes a line of it.
--
-- Not modelled: HTTP and gRPC below the requests, logging, deadlines and keep-alive messages, the
-- Kerberos library, and the signals and flags of the programs.
pub mod Prelude
pub mod Errors
pub mod PktLine
pub mod GitHttp
pub mod Path
pub mod Decimal
pub mod CommandArgs
pub mod ApiClient
pub mod Sshd
pub mod ShellCommand
pub mod KeyLine
pub mod Topology
pub mod Tests
pub mod Access
pub mod Lfs
pub mod Gitaly
pub mod Accounts
pub mod Health
pub mod Config
pub mod Lookup
pub mod Http
pub mod Programs
