-- ===== src/Lib.antt =====
-- Verification of Cotests, a web application for programming contests (Go, GORM and net/http).
-- Organizers prepare contests of series of problems; problems have revisions that are edited as
-- drafts, published once and then assigned to series; participants read released series and may
-- submit while they are open. The program keeps its state in a database, and a service layer decides
-- who may do what before a handler of the web server answers.
--
-- How the parts of the program correspond to the files of this library:
--
-- internal/db. `Db/Models.antt` has the records of models.go with the names of their columns, the
--   constants for roles, visibility and states, and the tables. `Db/Validate.antt` has validateContest,
--   validateSeries (contests.go), validateProblem and validateRevision (problems.go), each split into
--   the normal form that it writes back and the check of that form; `Db/Validate/Normal.antt` says what
--   the normal form is, with `Prelude/Trim.antt` for strings.TrimSpace. `Db/Gorm.antt` is the interface
--   between the program and its database: the record `Gorm` lists the kinds of statement that the
--   program issues, and `GormLaws` what their documentation promises of the rows, for each outcome; a
--   statement may always fail. `IsReliable` adds that reads answer. `Db/Gorm/Memory.antt` is a database
--   in memory that meets both. `Db/Contests.antt` is contests.go, `Db/Revisions.antt` problems.go
--   (LockDraft, CreateProblem, CreateDraftRevision, UpdateDraftRevision, PublishRevision,
--   CreateTestCase), and `Db/Sessions.antt` sessions.go and users.go.
-- internal/content/service.go. `Content/Access.antt` has the permission checks (requireUser,
--   ManageContest, ManageProblem, Revision, CanAuthor, Series, CanReadSeries, CanSubmit), and
--   `Content/Access/Spec.antt` the rules they implement, over the stored rows. `Content/Members.antt` is
--   SetMember and RemoveMember, `Content/Reorder.antt` reorder, ReorderSeries and ReorderProblems,
--   `Content/Assignments.antt` SaveSeries, Assign and conflictDraft, and `Content/Reading.antt`
--   Statement and Artifact.
-- internal/content/files.go. `Content/Files.antt` has fileTransaction, SaveTest, DeleteTest and
--   UploadPDF, `Content/Files/Archives.antt` PreviewZIP and CommitZIP, and
--   `Content/Files/Collector.antt` Collect. Their state is that of the database beside that of the
--   directory with the files; inside a file transaction the list of the files that it created stands
--   beside them, which a rollback does not take back. One reading of the clock stands for the
--   readings of a call.
-- internal/artifact/store.go. `Artifact.antt` has Save, Remove, Open and CollectTemporary, and
--   `Artifact/Keys.antt` the keys. `Artifact/Directory.antt` is the interface of the directory: the
--   record `Disk` lists the calls of the packages os and io, each of which may fail, and `DiskLaws`
--   what they do to the files. `CanRemove` adds that a file that is there can be removed: what is
--   stated of failing uploads needs it, since the code ignores the error of a removal.
--   `Artifact/Directory/Memory.antt` is a directory in memory that meets them all.
-- internal/importer/tests.go. `Importer.antt` is ReadTestZIP with validName and readBounded, and
--   `Importer/Names.antt` the functions of the packages path and strings that it calls. `Source.antt`
--   has readers and `io.ReadAll(io.LimitReader(source, max+1))`, where `max+1` leaves the range of
--   int64 for the greatest limit: the theorems take a limit below it.
-- internal/server. `Server/RateLimit.antt` is allowAuthAttempt and `Server/Login.antt` Register, Login
--   and Logout (handlers.go; with internal/auth/credentials.go), `Server/Security.antt` is security.go,
--   `Server/Identity.antt` GetUser, RequireAuth and RequireRole (auth.go), and `Server/Api.antt` the
--   handlers of api.go that write contests, members, series and assignments, with apiError.
-- internal/config/runtime.go. `Config.antt` is Load.
--
-- How state and errors are modelled. An operation on the database is an `Action`: from a state to a
-- result and a state, which comes back with an error too, since what was written stays written
-- unless a transaction takes it back (`Outcome/Action.antt`). A check that only reads is a function
-- to a `Result` (`Outcome.antt`); errors are values that a caller can tell apart as errors.Is and
-- errors.As do. Pointers that may be nil are options. Keys are natural numbers, 0 for a row that is
-- not stored; positions, points and limits are integers. Times are natural numbers of nanoseconds,
-- and a reading of the clock is an argument where the code takes it, once for each reading but for
-- internal/content/files.go. No sum is formed that could leave the range of Go's int: an order keeps
-- positions below 2^30 + 10000 (`Content/Reorder.antt` has the guard), an import counts on from 2^30
-- at most, and counts of rows, bytes and attempts are far below; the one that could, `max+1`, is in
-- `Source.antt`. Texts are native texts, measured in bytes.
--
-- What stands for code that is not in this repository is a parameter: the database, the directory,
-- the entries that archive/zip finds, path.Clean, encoding/json (the language metadata), the random
-- source (`FillsKey`: it returns 32 bytes or an error), SHA-256, HMAC, bcrypt, net/url, net/mail,
-- strconv, path/filepath and strings.ToLower and EqualFold on all of Unicode; what the theorems need
-- of the database is `GormLaws`. Every loop of the modelled code runs over a list, so the functions
-- are total and no fuel is used.
--
-- Concurrency. A transaction is one step, as the row locks that the code takes make it; histories of
-- revisions (`Db/Revisions/History.antt`) and of their files (`Content/Files/History.antt`) are
-- arbitrary sequences of calls that return or fail. The lock of the file store makes its calls one
-- step; an upload in a transaction that has not committed yet and a collection beside it are not
-- interleaved. The limiter of attempts is called under its mutex.
--
-- Not modelled: the handlers of api.go for problems and files and the paged lists, the handlers that
-- render pages and their templates, migrations and the opening of the database, the judge (an
-- interface without an implementation), the command line in internal/app, and static/.
pub mod Prelude
pub mod Outcome
pub mod Source
pub mod Db
pub mod Content
pub mod Importer
pub mod Artifact
pub mod Server
pub mod Config
pub mod Tests
