-- ===== src/Lib.antt =====
-- Verification library for the SlapOS software releases and recipes: models of the parts of the
-- repository that keep state, with the theorems that make them correct.
--
-- Parts and how they interact. Buildout instantiates recipes (slapos/recipe) with options: a
-- recipe reads options and files, talks to the SlapOS Master, and writes options and files. The
-- scripts of a software release (software/...) run in the instances that result. The files here:
--   Base            names, lists, dictionaries in insertion order (Base/Dict), Python code that
--                   may raise (Base/Py), texts as code lists (Base/Text) and native (Base/Str)
--   Xbuildout       software/simpleran/ru/xbuildout.py: encode and decode of section names on
--                   bytes; Xbuildout/Utf8 is the test of `bytes.decode`
--   Dcron           slapos/recipe/dcron.py: systemd_to_cron, one function for each step of it;
--                   Dcron/Part has the recipes
--   Theia           software/theia: Theia/World is theia_common.py with the file system,
--                   Theia/Export is theia_export.py, Theia/Import is theia_import.py; each method
--                   is one function of that name, a loop of a method is a function of its own
--   Request         slapos/recipe/request.py: Recipe and RequestOptional; Request/Edge has
--                   JSONCodec and RequestEdge
--   FreePort        slapos/recipe/free_port.py
--   Random          slapos/recipe/random.py: Integer, Time, Mac and Password
--   PublishEarly    slapos/recipe/publish_early.py
--   Publish         slapos/recipe/publish.py: _install and Failsafe
--   SymbolicLink    slapos/recipe/symbolic_link.py
--   Shell           slapos/recipe/librecipe/shlex.py and the text of the wrappers that
--                   createWrapper of librecipe/generic.py writes; Shell/Reader is how a POSIX
--                   shell reads a script with words, quotes, escapes, comments and "$@"
--   Generic         slapos/recipe/librecipe/generic.py: createFile on a disk with modes and inodes,
--                   createDirectory, createPythonScript, createWrapper, and the values of options
--   Execute         slapos/recipe/librecipe/execute.py: parse_signal, the pidfile, the waiting for
--                   files; Execute/Start is generic_exec as a trace, Execute/Redirect its loop
--                   over pipes and logs, Execute/Redirect/Channels what the loop implements
--   SlapConfiguration  slapos/recipe/slapconfiguration.py: fetch_parameter_dict; Flatten is
--                   flatten_dict, Schema the recipe JsonSchema
--   HttpServer      slapos/recipe/simplehttpserver: do_POST and writeFile as lists of effects,
--                   issubpathof on components of paths, the address of the server
--   Authority       slapos/recipe/certificate_authority/certificate_authority.py, and
--                   Authority/SshKeys slapos/recipe/sshkeys_authority.py
--   Postgres        slapos/recipe/postgres.py: install with its steps on a disk
--   Takeover        slapos/recipe/addresiliency/takeover.py as a trace of what it tells the Master
--   Librecipe       wrap and unwrap of slapos/recipe/librecipe/__init__.py
--   SwitchSoftwareType  slapos/recipe/switch_softwaretype.py
--   Re6stnet        slapos/recipe/re6stnet/__init__.py, and Re6stnet/Manager its re6stnet.py
-- The other modules hold proofs, and each Tests module concrete runs.
--
-- How the code is modelled. Python exceptions are values (`Outcome`); code that changes files runs
-- in a state that comes back beside an exception too (`Py`). A dictionary is an association list
-- in insertion order, the file system a list of nodes by path. Code outside the repository is a
-- parameter: the programs, hashes and clocks of `Theia.World.Tools`, the Master and the catalogue
-- of `Request.Master`, sockets in `FreePort.Net`, the random source, json and passlib in
-- `Random.Tools`, buildout's sections in `PublishEarly.Buildout`, openssl in `Re6stnet.Openssl`,
-- registry and Master in `Re6stnet.Manager.Client`, opening and writing logs in
-- `Execute.Redirect`, netaddr and the disk in `SlapConfiguration.System`, jsonschema in
-- `SlapConfiguration.Schema.Validator`, the errors of the disk in `HttpServer.Errors`, openssl and
-- the key generator in `Authority.System` and `Authority.SshKeys.System`, the programs of the
-- cluster in `Postgres.System`, the Master in `Takeover.Master`. What a theorem needs of them is a
-- hypothesis of its statement.
--
-- Loops are structural: over lists, over the length of a range, over the attempts that the code
-- counts (ten for the proxy, three for a build), over the events that a loop without end reads, or
-- over the attempts that the Master answers. Only the decimal printer runs on fuel, the number
-- and one, which is more than its digits.
--
-- Not modelled: what is printed, times of files, the parsers of the command line, templates, the
-- defaults of objects within objects of a JSON schema, the sets of tap interfaces and routes that
-- nothing reads, the other recipes, tests, and code of other projects kept in the repository.
pub mod Authority
pub mod Base
pub mod Xbuildout
pub mod Dcron
pub mod Takeover
pub mod Theia
pub mod Request
pub mod Execute
pub mod FreePort
pub mod Random
pub mod Postgres
pub mod Re6stnet
pub mod PublishEarly
pub mod Shell
pub mod SlapConfiguration
pub mod SwitchSoftwareType
pub mod Publish
pub mod SymbolicLink
pub mod Generic
pub mod HttpServer
pub mod Librecipe
