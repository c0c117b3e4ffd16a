-- ===== src/Lib.antt =====
-- A model of fox, an HTTP router for Go, and of what makes its parts correct.
--
-- The router keeps two trees. The routing tree has the bytes of the patterns on its static edges,
-- and nodes for parameters and wildcards; its leaves hold routes. The tree of names maps the name
-- of a route to the route. A transaction writes to both, and a request is looked up in the first,
-- by a path that has been brought into canonical form. The handler writes to a recorder.
--
-- Slices: internal/slicesutil/slicesutil.go, EqualUnsorted and Overlap. The marks of EqualUnsorted
--   are a list of Booleans; Overlap drops the head of a list where the source advances an index.
-- StringsUtil: internal/stringsutil/stringutils.go. A byte is a number below 256 and a string is a
--   list of bytes. StringsUtil.Escape has a reference decoder and the canonical form of a path;
--   StringsUtil.Normalize the normal form of an encoding, which NormalizeRawPath answers.
-- Route: route.go, with the tokens and patterns of parser.go and tree.go. The type of the matchers
--   is a parameter, since applications have their own; a regular expression is its text.
-- Node: node.go. Nodes are values, since the trees are changed by copying: writeNode makes a copy,
--   and stands for nothing here. Node.Order is the order of the routes of a leaf, Node.Search the
--   binary search for a label, Node.Content what a tree holds as a map from paths to routes, and
--   Node.Edges how the edges change that map.
-- Tree: tree.go. Tree.Names is the tree of names; Tree.Insert what happens where the tokens of a
--   pattern end, Tree.Walk the way there, Tree.Remove the deletion, and Tree.Txn the transaction, which
--   Tree.Ends is about, with Tree.Depth for computePathDepth.
--   Fuel: a call of insertNameIn goes on behind the key of a child, so one more than the length of
--   the name is enough; a call of insertTokens goes on with fewer tokens or a shorter one, so one
--   more than the number of the tokens and of their bytes is enough; a round of computePathDepth goes
--   down to a child, so the number of nodes is enough.
-- UrlPath: path.go, MergeSlashes with its lazily made buffer, fixTrailingSlash and
--   escapeLeadingSlashes, the last in UrlPath.Redirect. UrlPath.Dots is CollapseDotSegments, on the
--   same buffer; UrlPath.Dots.Resolve says what becomes of the segments of a path, and the loop is
--   compared with it. Each round reads a byte, so one unit of fuel more than the path has bytes is
--   enough.
-- Routing: fox.go, routingPath, normalizeRoutingPath, redirectRoutingPath and hexEscapeNonASCII. Of
--   the request the two paths of its URL are taken, of the router its two options.
-- Recorder: response_writer.go. The http.ResponseWriter below is a parameter, and each of its
--   methods may panic. Recorder.Watched adds a log of what that writer was given, and
--   Recorder.Truth compares it with what the recorder reports.
-- Netutil: internal/netutil/netutil.go, SplitHostPort and StripHostPort.
-- Parser: parser.go. Parser.Brace is parseBrace and compileParamRegexp, Parser.Size the bound on the
--   size of an expression, Parser.Path and Parser.Hostname the two loops, whose bodies are
--   path_round and host_round on a record of the local variables, and Parser.Pattern is
--   parsePattern. regexp, regexp/syntax and unicode/utf8 are the record Library. An error is a value
--   with its positions; the pattern and the part that Go writes into it are those of the call.
--   Parser.Outcome has the postconditions of a parse, Parser.Tokens what tokens print as, and
--   Parser.Reading the invariant of both loops. Each round reads a byte, so one unit of fuel more
--   than the length of the text is enough.
-- ClientIp: clientip/clientip.go, the resolvers on the header X-Forwarded-For. A resolver is a function
--   of what it reads of the request. net/netip, strings.TrimSpace and the sequences of
--   internal/iterutil are the record Net. ClientIp.Forged is about what a client can forge,
--   ClientIp.Order about Chain, and ClientIp.Quoted has lastUnquoted, which cuts the elements off the
--   header Forwarded; ClientIp.Quoted.Pieces compares it with the grammar of the header.
-- Params: params.go, Get and Has. clone makes a copy, which is the same value.
-- Lookup: lookupstate.go, and of node.go lookupByPath. Lookup.Accept is Route.match; Lookup.State has
--   the local variables and the skip stack, Lookup.Step the static child, the parameters, the end of
--   the path and Backtrack, Lookup.Wildcards the wildcards, and Lookup.Path the jumps between the
--   labels, one unit of fuel each. What regexp.MatchString, the listings of internal/regprog and the
--   Pike VM of pikevm.go answer are arguments. Lookup.Trail says without the walk where a path leads;
--   Lookup.Goes where a round may go, Lookup.Ends that the walk ends, which is by induction on what is
--   left of the path, to try at the node and of a capture, and Lookup.Finds that it loses no route.
-- Tests: concrete inputs; Tests.Parsers has patterns, Tests.Paths paths, Tests.Addresses requests
--   and Tests.Lookups a routing tree.
--
-- Not modelled: lookup and lookupByHostname, and ServeHTTP, which stands on them; the simulation of
-- regular expressions (pikevm.go, internal/regprog), the options of the router, the matchers of
-- matcher.go, ReadFrom of the recorder, and the elements of the header Forwarded; logging, recovery
-- and the copied libraries have no logic of the router. What `forked` and the cache of writable nodes
-- decide, which is whether a map or a node may be changed in place, has no counterpart over values.
pub mod Prelude
pub mod Slices
pub mod StringsUtil
pub mod Route
pub mod Node
pub mod Tree
pub mod UrlPath
pub mod Recorder
pub mod Netutil
pub mod Parser
pub mod Routing
pub mod ClientIp
pub mod Params
pub mod Lookup
pub mod Tests
