-- ===== src/Lib.antt =====
-- stupid-ids numbers the messages of translation templates, and keeps sets of accepted and rejected
-- translations by these numbers.
--
-- The parts and how they interact:
-- * IdMap (gettextpo-helper/gtpo/mappedfile.h, mappedfile.cpp): which message IDs stand for the same
--   message. `getPlainMinId` is `get_plain_min_id`, `addRow` is `add_row`, and so on.
-- * Net (stupids-server/tcpcommandserver.cpp): one connection. Session is the state of the class,
--   with the socket as its input and a schedule of what each `recvfrom` finds.
-- * Server (stupids-server/server.cpp): the commands, over the session and the map of IDs.
-- * Client (gettextpo-helper/gtpo/stupids-client.cpp): the requests, over what the server sends for the
--   bytes that have been written.
-- * Text (gettextpo-helper/gtpo/optstring.cpp) and Message (messagetranslationbase.cpp, message.cpp,
--   iddiffmessage.cpp there): strings and translations.
-- * Iddiff (gettextpo-helper/gtpo/iddiff.cpp, iddiffchange.cpp): the sets of translations. A pointer
--   to a message is an address with the message; a map from IDs to pointers may hold null pointers.
--   Below it, Diff and Apply have the comparison of files and the application to messages, Ids the
--   replacement of IDs, Merge the merging and filtering of sets, Comments the comments of
--   translators, and File the JSON document.
-- * Repo (gettextpo-helper/gtpo/commit.cpp, commitfilechange.cpp, repository.cpp): the list of commits
--   and the searches in it. Below it, Tree has the difference of two git trees, History the reading of
--   commits, which provides what the searches need, Search the searches by date and by base name, and
--   Blobs the walk over the files of a commit.
-- * Date (gettextpo-helper/gtpo/filedatetime.cpp), Json (the documents that rapidjson holds) and Po
--   (messages as libgettextpo reads them, gettextpo-helper/gtpo/gettextpo-helper.cpp).
-- * Content (gettextpo-helper/gtpo/translationcontent.cpp, messagegroup.cpp, messageoriginaltext.cpp):
--   the messages of a .po file, read and written, and the hash of its template.
-- * OidCache (gettextpo-helper/gtpo/oidmapcache.cpp): a map of hashes with its file. FirstIds
--   (filedbfirstids.cpp there): the first ID of each template.
-- * Orphans (gettextpo-helper/gtpo/processorphans.cpp): what became of moved files. Detector
--   (detector.cpp, detectorbase.cpp there): which files are versions of one another.
-- * Collector (gettextpo-helper/gtpo/translation-collector.cpp): the messages of many files by ID.
-- Base has the tests, lists and results that they share. Each Examples module applies the theorems.
--
-- A failed assert, a null pointer that is read and an exception are values of Error. Message IDs are
-- natural numbers: the program stores no negative ones, and `int` does not overflow on those it can
-- write, which are below 100000000. Row counts of files are numbers, too: the casts to `int` in
-- mappedfile.cpp are exact for files below 8 GB. A pointer from OptString::c_str, which points into a
-- string that has been destroyed, cannot be read: that is an Error. Where the code multiplies 32-bit words the wrap is written out.
-- Memory is not freed in the model, and addresses of new messages are parameters.
--
-- Loops recur on lists, trees, counts or on a number that falls. `getRecursiveMinId` recurs on the ID,
-- which its own assert makes smaller; the loop of `recvFromClient` recurs on the bytes that are still
-- needed; the binary searches recur on the width of what is left. Only the walk over a git tree
-- (`walk_blob`) is given a number of rounds, since on an empty directory the program does not end; the
-- number of entries and directories is enough otherwise.
--
-- Parameters: the service behind `StupidsDatabase::getFirstId`, any function from hashes to a
-- first ID and a count; SHA-1, any function from documents to hashes; the text of a date, any
-- function; the messages that the collector has for an ID and what the client answers it, any
-- function. What libgit2, libgettextpo and rapidjson have read is data: trees, commits,
-- messages, documents.
-- Not modelled: files, sockets and processes of the system, the text of .po and JSON files, the
-- comparison of branches by the detector, the graphical programs, bindings and tools.
pub mod Base
pub mod Repo
pub mod IdMap
pub mod Net
pub mod Server
pub mod Client
pub mod Text
pub mod Date
pub mod Json
pub mod Po
pub mod Content
pub mod Message
pub mod Iddiff
pub mod OidCache
pub mod FirstIds
pub mod Orphans
pub mod Detector
pub mod Collector
